-- ===== src/Torrstor/Ranges/Query.antt =====
-- ranges.go: a query on merged windows.
use tiramisu.Base.{◌≡◌, ◌∙◌, List}
use tiramisu.Base.Int.{ℤ}
use tiramisu.Torrstor.Ranges.Merge.{Range, merge_range, covered, AllValid}
use tiramisu.Torrstor.Ranges.Search.{in_ranges, in_ranges-covered}
use tiramisu.Torrstor.Ranges.Union.{covered-merge_range, merge_range-Apart}

-- For windows that each end no earlier than they start, in any order and overlapping in any way,
-- `inRanges` on the merged windows answers true exactly for the pieces of the given windows.
pub in_ranges-merge_range :
    {F : Type 0} (rs : List (Range F)) (p : ℤ)
    → AllValid rs
    → in_ranges (merge_range rs) p ≡ covered rs p
in_ranges-merge_range rs p v =
    in_ranges-covered p (merge_range rs) (merge_range-Apart rs v) ∙ covered-merge_range rs p
