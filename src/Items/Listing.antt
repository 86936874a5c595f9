-- ===== src/Items/Listing.antt =====
-- What a page of the items holds.
use fastapi_newyear.Env.{Env}
use fastapi_newyear.World.{World}
