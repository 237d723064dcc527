-- ===== src/Cache.antt =====
-- internal/cache/lrucache.go: the sharded metadata cache with a time to live.
pub mod Lru
pub mod Sharded
