-- ===== src/Cache.antt =====
-- src/cache.py: the LRU cache with a time to live, and its statistics.
pub mod Stats
pub mod Lru
