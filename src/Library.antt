-- ===== src/Library.antt =====
-- internal/library: the rules of the library of virtual files.
pub mod Idempotency
pub mod Locks
pub mod Paths
pub mod Sections
pub mod Sources
