-- ===== src/Vfs/Segment.antt =====
-- internal/vfs/segment.go: a cue track of an image is served as a generated header with a part of the
-- torrent file behind it. An offset and a count may be negative; lengths are not.
pub mod Reads
use tiramisu.Base.{
  ℕ, ◌+◌, ◌-◌, ◌/◌, ◌%◌, Bool, true, false, ◌||◌, List, [], ◌∷◌, ◌++◌, zero, suc, ltb, leb, ◌==◌,
  if◌then◌else◌,
}
use tiramisu.Base.Eq.{GoString, codes}
use tiramisu.Base.Int.{ℤ, pos, negsuc}

-- What `fmt` prints for a number; each digit takes one of the fuel.
unfoldable pub digits : ℕ → ℕ → GoString
digits zero n = []
digits (suc fuel) n =
    let more = digits fuel (n / 10) ++ ((48 + n % 10) ∷ []) in
    if ltb n 10 then (48 + n) ∷ [] else more

-- `SegmentInodeHash`
unfoldable pub segment_inode_hash : GoString → ℤ → GoString
unfolding digits
segment_inode_hash hash (negsuc n) = hash
segment_inode_hash hash (pos zero) = hash
segment_inode_hash hash (pos (suc n)) = hash ++ (codes "#c" ++ digits (suc n) (suc n))

-- The part of the header, and the part of the torrent file.
pub record SegmentParts : Type 0 where
  pub hdr_from : ℕ
  pub hdr_to : ℕ
  pub inner_off : ℕ
  pub inner_n : ℕ

abbrev pub no_parts : SegmentParts
no_parts = record { hdr_from = 0; hdr_to = 0; inner_off = 0; inner_n = 0 }

-- From the guard on, with the end of the read cut to the end of the track.
unfoldable pub segment_parts : ℕ → ℕ → ℕ → ℕ → SegmentParts
segment_parts h base off end =
    let start = if ltb off h then h else off in
    record {
      hdr_from = if ltb off h then off else 0;
      hdr_to = if ltb off h then (if ltb end h then end else h) else 0;
      inner_off = if ltb h end then base + start - h else 0;
      inner_n = if ltb h end then end - start else 0;
    }

-- `SegmentRead`
unfoldable pub segment_read : ℕ → ℕ → ℕ → ℤ → ℤ → SegmentParts
unfolding segment_parts
segment_read h base len (negsuc off) n = no_parts
segment_read h base len (pos off) (negsuc n) = no_parts
segment_read h base len (pos off) (pos n) =
    let total = h + len in
    if leb total off || (n == 0)
    then no_parts
    else segment_parts h base off (if ltb total (off + n) then total else off + n)
