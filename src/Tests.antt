-- ===== src/Tests.antt =====
-- The theorems at concrete inputs, and runs of the definitions.
mod Torrstor
mod Cache
mod Audio
mod Library
mod Locks
mod Sections
mod Vfs
mod Syncer
mod Mcp
mod Ratelimit
mod Settings
mod Sources
mod Flac
mod Scheduler
mod Inodes
