-- ===== src/Cache.antt =====
-- internal/cache: the object cleaner, the bolt-backed cache and the live-query cache.
pub mod Cleaner
pub mod Set
pub mod Tracker
pub mod LiveQueries
pub mod Bolt
