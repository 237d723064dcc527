-- ===== src/Torrstor/Evict.antt =====
-- internal/gostorm/torr/storage/torrstor/cache.go: the eviction pass of the piece cache. The windows
-- and the positions of the readers in use are arguments. A call is one step.
pub mod Protects
pub mod Frees
use tiramisu.Base.{
  ℕ, ◌+◌, ◌-◌, ◌*◌, ◌/◌, ◌<◌, ◌≤◌, Bool, true, false, not, ◌&&◌, ◌||◌, Option, none, some, List, [],
  ◌∷◌, length, get_or, ltb, leb, ◌==◌, if◌then◌else◌,
}
use tiramisu.Base.Eq.{nat_eq}
use tiramisu.Base.GoMap.{Map, lookup, insert}
use tiramisu.Torrstor.PieceCache.{FileSpan, Piece, Cache, is_id_in_file_be}
use tiramisu.Torrstor.Priority.{Position, Limits, set_load_priority, clear_priority}
use tiramisu.Torrstor.Ranges.{Range, merge_range}
use tiramisu.Torrstor.Ranges.Mark.{fill_piece_in_range, piece_evictable}

-- The test of the scan for one piece.
unfoldable pub removable : ℕ → List (Range FileSpan) → List Bool → ℕ → Piece → Bool
removable piece_length ranges bitmap id p =
    piece_evictable p.size p.complete (ltb id (length bitmap) && get_or bitmap id false)
    && not (is_id_in_file_be piece_length ranges id)

-- The scan over the map: the bytes held, and the pieces that may go.
unfoldable pub scan : (ℕ → Piece → Bool) → Map ℕ Piece → ℕ × List (ℕ × Piece)
scan test [] = (0, [])
scan test ((id, p) ∷ ps) =
    let (fill, rem) = scan test ps in (p.size + fill, if test id p then (id, p) ∷ rem else rem)

-- `sort.Slice` by the time of the last access.
unfoldable pub insert_by_access : ℕ × Piece → List (ℕ × Piece) → List (ℕ × Piece)
insert_by_access a [] = a ∷ []
insert_by_access a (b ∷ l) =
    if ltb b.1.accessed a.1.accessed then b ∷ insert_by_access a l else a ∷ b ∷ l

unfoldable pub sort_by_access : List (ℕ × Piece) → List (ℕ × Piece)
unfolding insert_by_access
sort_by_access [] = []
sort_by_access (a ∷ l) = insert_by_access a (sort_by_access l)

-- Whether the scan asks for the edges of a file.
unfoldable pub asks_edges : List Bool → Map ℕ Piece → Bool
asks_edges bitmap [] = false
asks_edges bitmap ((id, p) ∷ ps) =
    piece_evictable p.size p.complete (ltb id (length bitmap) && get_or bitmap id false)
    || asks_edges bitmap ps

-- `getRemPieces`; `none` is a panic. The edges of a file panic for a piece length of nought.
unfoldable pub get_rem_pieces :
    List (Range FileSpan) → List Position → Limits → Cache → Option (List (ℕ × Piece) × Cache)
get_rem_pieces windows readers limits c =
    let ranges = merge_range windows in
    elim c.is_closed [
      | true ↦ some ([], c)
      | false ↦ elim (fill_piece_in_range c.piece_in_range ranges c.piece_count) [
        | none ↦ none
        | some bitmap ↦
            (let (fill, rem) = scan (removable c.piece_length ranges bitmap) c.pieces in
              if (c.piece_length == 0) && (ltb 0 (length ranges) && asks_edges bitmap c.pieces)
              then none
              else (elim (set_load_priority ranges readers limits
                  (clear_priority ranges (record c { piece_in_range = bitmap }))) [
                    | none ↦ none
                    | some c' ↦ some (sort_by_access rem, record c' { filled = fill })
                  ]))
      ]
    ]

-- `Piece.Release`: the buffer goes, and with it the size and the completion.
abbrev pub release : Piece → Piece
release p = record p { size = 0; complete = false }

-- `removePiece` on the first `rems` candidates.
unfoldable pub remove_pieces : ℕ → List (ℕ × Piece) → Map ℕ Piece → Map ℕ Piece
remove_pieces rems [] pieces = pieces
remove_pieces rems ((id, p) ∷ l) pieces =
    let freed = insert id (release p) pieces in
    let rest = remove_pieces (rems - 1) l freed in if leb rems 1 then freed else rest

-- The candidates go only while the cache is over its capacity; `none` is the division by a piece length of
-- nought.
unfoldable pub trim : List (ℕ × Piece) → Cache → Option Cache
trim rem c =
    if not (ltb c.capacity c.filled)
    then some c
    else if c.piece_length == 0
    then none
    else some (record c {
      pieces = remove_pieces ((c.filled - c.capacity) / c.piece_length + 1) rem c.pieces;
    })

-- The pass of `cleanPieces` once the lock is held.
unfoldable pub evict : List (Range FileSpan) → List Position → Limits → Cache → Option Cache
evict windows readers limits c = elim (get_rem_pieces windows readers limits c) [
  | none ↦ none
  | some (rem, c') ↦ trim rem c'
]

-- `cleanPieces` at the time `now`; `free` tells whether `TryLock` gets the lock. Its first call is
-- `refreshPriorities`.
unfoldable pub clean_pieces :
    List (Range FileSpan) → List Position → Limits → ℕ → Bool → Cache → Option Cache
unfolding evict
clean_pieces windows readers limits now free c =
    if c.is_remove || c.is_closed
    then some c
    else (elim (set_load_priority (merge_range windows) readers limits c) [
      | none ↦ none
      | some c' ↦
          if ltb now (c'.last_clean_ns + 1000000000) && ltb c'.filled (c'.capacity * 9 / 10)
          then some c'
          else if not free
          then some c'
          else evict windows readers limits (record c' { last_clean_ns = now })
    ])
