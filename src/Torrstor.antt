-- ===== src/Torrstor.antt =====
-- internal/gostorm/torr/storage/torrstor: the piece cache of the engine.
pub mod Ranges
pub mod PieceCache
pub mod Priority
pub mod Evict
pub mod Shield
