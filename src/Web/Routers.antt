-- ===== src/Web/Routers.antt =====
-- The functions of the routers, on what the framework passes to them: the validated payload, and
-- the user that `get_current_user` has found. A response model that was validated before passes
-- again.
pub mod Auth
pub mod Items
pub mod Files
