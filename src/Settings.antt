-- ===== src/Settings.antt =====
-- internal/gostorm/settings: the engine's database behind its read cache.
pub mod DataLru
pub mod ReadCache
