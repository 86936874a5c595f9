-- ===== src/Auth.antt =====
-- App/modules/auth.
pub mod Tokens
pub mod Resets
pub mod States
pub mod Yandex
pub mod Sessions
pub mod Schemas
pub mod Service
pub mod Dependencies
pub mod Logout
pub mod Refresh
pub mod Recovery
pub mod Login
pub mod Callback
