-- ===== src/Torrstor/PieceCache.antt =====
-- torrstor/cache.go: the state of the piece cache, and the head and the tail of a file. The pieces are a map
-- from piece index to piece. Sizes are non-negative byte counts.
use tiramisu.Base.{ℕ, ◌+◌, ◌/◌, Bool, false, ◌&&◌, ◌||◌, List, [], ◌∷◌, ltb, leb, if◌then◌else◌}
use tiramisu.Base.GoMap.{Map}
use tiramisu.Base.Int.{ℤ, pos, negsuc, ltb_ℤ, sub_ℕ}
use tiramisu.Torrstor.Ranges.{Range}

-- A file's span inside its torrent.
pub record FileSpan : Type 0 where
  pub offset : ℕ
  pub size : ℕ

pub record Piece : Type 0 where
  pub size : ℕ
  pub complete : Bool
  pub accessed : ℕ

-- The priorities of the torrent library that the cache names, the lowest first.
pub data Priority : Type 0 where
  unset normal high readahead next now : Priority

-- `torrent` tells whether the cache has its torrent.
pub record Cache : Type 0 where
  pub capacity : ℕ
  pub filled : ℕ
  pub piece_length : ℕ
  pub piece_count : ℕ
  pub pieces : Map ℕ Piece
  pub piece_in_range : List Bool
  pub local_priority : Map ℕ Priority
  pub torrent : Bool
  pub is_remove : Bool
  pub is_closed : Bool
  pub last_clean_ns : ℕ

-- Go's `/` on a signed dividend: the quotient is cut towards zero.
unfoldable pub quot : ℤ → ℕ → ℤ
quot (pos n) d = pos (n / d)
quot (negsuc n) d = sub_ℕ 0 ((n + 1) / d)

abbrev pub edge_floor : ℕ
edge_floor = 8388608

-- The head and the tail of a file that is being read are never evicted. The division panics for a piece length
-- of nought, which the callers test for.
unfoldable pub in_file_edge : ℕ → FileSpan → ℕ → Bool
unfolding quot
in_file_edge piece_length file id =
    let keep = if ltb piece_length edge_floor then edge_floor else piece_length in
    let ss = file.offset / piece_length in
    let se = (file.offset + keep) / piece_length in
    let es = quot (sub_ℕ (file.offset + file.size) keep) piece_length in
    let ee = (file.offset + file.size) / piece_length in
    (leb ss id && ltb id se) || (ltb_ℤ es (pos id) && leb id ee)

unfoldable pub is_id_in_file_be : ℕ → List (Range FileSpan) → ℕ → Bool
unfolding in_file_edge
is_id_in_file_be piece_length [] id = false
is_id_in_file_be piece_length (r ∷ rs) id =
    in_file_edge piece_length r.file id || is_id_in_file_be piece_length rs id
