-- ===== src/Consistency.antt =====
-- What every request keeps of the database.
pub mod Accounts
pub mod Sessions
pub mod Recovery
pub mod Keys
pub mod Files
pub mod Writes
pub mod Items
pub mod Requests
pub mod Reachable
