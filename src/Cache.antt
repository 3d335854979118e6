-- ===== src/Cache.antt =====
-- The cache crate, `cache/src`.
pub mod Recency
pub mod Arena
pub mod LruList
pub mod Policy
mod Tests
