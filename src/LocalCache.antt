-- ===== src/LocalCache.antt =====
-- localCache/src/main/java/com/toy/cache: a cache with LRU eviction, the task that loads a value,
-- and the history of visits.
pub mod Lru
pub mod QueryTask
pub mod Cache
pub mod History
mod Tests
