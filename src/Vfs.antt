-- ===== src/Vfs.antt =====
-- internal/vfs: the caches of the virtual filesystem.
pub mod DirCache
pub mod Segment
pub mod Inodes
