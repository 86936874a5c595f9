-- ===== src/Auth/Dependencies/Frame.antt =====
-- Finding out who a request comes from writes nothing to the database.
use fastapi_newyear.Base.{Option, Text, ◌≡◌, arith}
use fastapi_newyear.Env.{Env}
use fastapi_newyear.World.{World}
use fastapi_newyear.Common.Cache
use fastapi_newyear.Users.Service
use fastapi_newyear.Auth.Sessions
use fastapi_newyear.Auth.Dependencies.{get_current_auth}

module _ ⦃env : Env⦄ where
  pub get_current_auth_frame :
      (cookie : Option Text) (w : World) → (get_current_auth cookie w).1.db ≡ w.db
  unfolding get_current_auth Sessions.is_access_jti_valid Cache.is_available Cache.get
      Service.get_active_by_id Service.cache_public_profile Cache.set
  get_current_auth_frame cookie w = ground arith
