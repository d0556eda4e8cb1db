-- ===== src/Cache.antt =====
-- The caches of cache/: the linked list they share, the two strategies, and the cache groups.
pub mod Linked
pub mod Lru
pub mod Lfu
pub mod Group
pub mod Flight
pub mod Registry
pub mod Tests
