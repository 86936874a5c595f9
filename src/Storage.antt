-- ===== src/Storage.antt =====
-- App/modules/storage.
pub mod Repository
pub mod Names
pub mod Service
pub mod Profile
pub mod Access
pub mod Avatars
