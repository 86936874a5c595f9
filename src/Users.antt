-- ===== src/Users.antt =====
-- App/modules/users.
pub mod Repository
pub mod Service
