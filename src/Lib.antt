-- ===== src/Lib.antt =====
-- Tiramisu serves torrents as files: a FUSE file system in front, a torrent engine behind it that keeps
-- pieces in memory, a library of virtual files, and jobs that fill the library. This library models the
-- parts that carry state of their own and proves what keeps them right.
--
-- The parts and their files:
--   Base: numbers, options, lists, Go maps as association lists (Base/GoMap), the equality of keys
--     (Base/Eq), integers over the native naturals (Base/Int), parts of lists (Base/Slices), and lists
--     without repeated keys (Base/Distinct, Base/Fresh).
--   Torrstor, of internal/gostorm/torr/storage/torrstor: the piece cache of the engine. Ranges and its
--     children are ranges.go: `mergeRange` (Merge, Union), `inRanges` (Search, Query),
--     `fillPieceInRange` and `pieceEvictable` (Mark), the budgets (Budget). PieceCache is the state
--     of cache.go, Priority the piece priorities (`setLoadPriority`, `clearPriority`), Evict the eviction
--     pass `cleanPieces`, which takes the merged windows and the bitmap of Ranges. Shield is the
--     adaptive shield of piece.go, with `MarkNotComplete`, `ResetShield` and the watchdog.
--   Cache, of internal/cache/lrucache.go: one shard is Cache/Lru, the shards are Cache/Sharded, which
--     calls the operations of Lru.
--   Vfs: DirCache, of internal/vfs/dircache.go, is the listings of directories with their generations;
--     Segment, of internal/vfs/segment.go, the reads of a cue track; Inodes, of internal/vfs/inodemap.go,
--     the inodes of files and directories (Valid and Answers any calls, Saved and Restart the JSON form,
--     Shared two paths of one file).
--   Syncer: StateStore, of internal/syncer/statestore/store.go, is the time stamped map behind a JSON
--     file; Scheduler, of internal/syncer/scheduler/scheduler.go, when the jobs are due (Next, Daily),
--     and its child Runs the runs of the jobs as steps, with what goes wrong where a call is not one
--     step (Races).
--   Mcp, of internal/mcp/jobs.go: the table of background jobs.
--   Ratelimit, of internal/ratelimit/ratelimit.go: the token bucket.
--   Audio, of internal/audio/cue/cue.go: cue sheets. Audio/Cue is `Parse` from the decoded text on, its
--     child Text the work on characters with what it uses of Go's strings and strconv, Lookup `FileFor`.
--     Audio/Flac is internal/audio/flacsplit/flacsplit.go, the cutting of FLAC images: Image is the
--     metadata, Number and Frame the frame headers, Search the way to a sample.
--   Library, of internal/library/idempotency.go: Idempotency is what a request for audio files would
--     become, over the interface of the projection registry (Rounds is one request, Planning all of
--     them); and of
--     internal/library/locks.go: the locks by key, in Library/Locks; and of
--     internal/library/pathvalidation.go: the syntax of paths, in Library/Paths; and of
--     internal/library/audio.go: the sections and the names of their files, in Library/Sections; and of
--     internal/library/sourceresolve.go: the source paths of a request, in Library/Sources (Single is one
--     path, Request all of them).
--   Settings, of internal/gostorm/settings: DataLru is the byte-bounded LRU of datalru.go, ReadCache the
--     read cache of dbreadcache.go in front of the database interface of gostormdb.go. Agrees says what
--     the cache keeps of what was last told, Refines takes one call and Run a list of calls; Race has a write between
--     the locks of a read.
--   Tests: the theorems at concrete inputs, and runs.
--
-- State and operations: a Go struct is a record with the fields that the operations read or write, and a
-- method is a function from the state to the new state and the result. A mutex makes a method one step.
-- Where the source gives a lock up in the middle, or works on atomics, its parts are functions of their
-- own and the interleavings are steps of a relation: the two halves of the LRU `Get`,
-- the end of a job, the calls for a lock of the library, the sends and receives of a rate
-- limiter's reset, the runs of the scheduler, and the calls around the walk of a directory. The
-- calls on the adaptive shield and the rounds of its watchdog are one step each, though the source does
-- them with several atomics; only the end of a round is also there in its parts. The clock is
-- an argument that an operation reads once, in nanoseconds, or in seconds where the source takes Unix
-- seconds. A reader of a file is a function from a position and a count to the bytes.
--
-- Bounds: sizes, counts and times are naturals, since the source keeps them non-negative; they stand for
-- values below 2 ^ 63, but for the product of the piece budget, which wraps as int64 does, and for the
-- generations of listings, which wrap as uint64. Positions that may be negative are integers. The binary
-- search has the number of windows as fuel, each round halves what is left; the eviction loop of the LRU
-- cache has the length of its list, each round removes an element; the split of a cue line has the
-- length of the line, each round takes a character; the loop over the blocks of a FLAC image has its size,
-- each round passes four bytes, and the walk over the frames of a window the window's length; the
-- loop over the pieces of a reader has the pieces up to the last one; the
-- eviction of the settings cache has the length of its list. A map is walked in the order of its
-- list; the source walks it in any order.
--
-- Not modelled: the vendored BitTorrent client, the database, network and file operations, and the
-- kernel's side of FUSE. The hash of a shard's key and of an inode, the ids of jobs, the functions
-- of encoding/json and the dates of package time are arguments; a theorem that needs the JSON form to be read
-- back as it was written, or a clock that does not skip a time, has that as a hypothesis.
pub mod Audio
pub mod Base
pub mod Cache
pub mod Library
pub mod Mcp
pub mod Ratelimit
pub mod Settings
pub mod Syncer
pub mod Tests
pub mod Torrstor
pub mod Vfs
