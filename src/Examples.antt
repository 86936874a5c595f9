-- ===== src/Examples.antt =====
-- A concrete environment that behaves as the theorems assume, and the theorems at inputs in it.
pub mod Lists
pub mod Keys
pub mod Tokens
pub mod Environment
pub mod Accounts
pub mod Files
pub mod Items
pub mod Passwords
pub mod Locks
pub mod Mails
pub mod Sessions
pub mod Runs
pub mod Infrastructure
