-- ===== src/Syncer.antt =====
-- internal/syncer: the stores and the scheduler of the sync engines.
pub mod StateStore
pub mod Scheduler
