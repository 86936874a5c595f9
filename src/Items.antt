-- ===== src/Items.antt =====
-- App/modules/items.
pub mod Repository
pub mod Schemas
pub mod Service
pub mod Titles
pub mod Nulls
pub mod Freshness
pub mod Listing
pub mod Refinement
pub mod Coherence
