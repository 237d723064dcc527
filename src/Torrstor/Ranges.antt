-- ===== src/Torrstor/Ranges.antt =====
-- internal/gostorm/torr/storage/torrstor/ranges.go: the windows of pieces that the readers protect.
-- Piece indices are Go `int`s of either sign; the torrent file of a window is an opaque value.
pub mod Search
pub mod Merge
pub mod Mark
pub mod Budget
pub mod Union
pub mod Query
unfoldable pub use Search.{sort_search, in_ranges}
pub use Merge.{Range, covers, Apart}
unfoldable pub use Merge.{range_less, sort_ranges, merge_from, merge_range, covered}
