-- ===== src/Torrstor/Priority.antt =====
-- torrstor/cache.go: the priorities of the pieces around the readers. What the torrent is told of them is
-- outside; the cache's own record of them is its state. The readers in use are an argument, with
-- their positions, and so are the limits of the settings, which are not negative. `none` is a panic: a
-- division by a piece length of nought, or a piece of the loop that the cache does not hold.
pub mod Total
use tiramisu.Base.{
  ℕ, zero, suc, ◌+◌, ◌-◌, ◌/◌, Bool, true, false, not, ◌&&◌, ◌||◌, Option, none, some, List, [],
  ◌∷◌, length, ltb, leb, ◌==◌, if◌then◌else◌,
}
use tiramisu.Base.Eq.{nat_eq}
use tiramisu.Base.GoMap.{Map, lookup, insert}
use tiramisu.Base.Int.{ℤ, pos, ltb_ℤ}
use tiramisu.Torrstor.PieceCache.{
  FileSpan, Piece, Cache, Priority, unset, normal, high, readahead, next, now, is_id_in_file_be,
}
use tiramisu.Torrstor.Ranges.{Range, in_ranges}
use tiramisu.Torrstor.Ranges.Budget.{piece_budget_count}

-- `getReaderPiece`, `getReaderRAHPiece` and the end of `getPiecesRange` of a reader.
pub record Position : Type 0 where
  pub piece : ℕ
  pub rah_piece : ℕ
  pub end : ℤ

-- `eighty` is `int(float64(limit) * 0.8)`, and `readers` the number of all readers.
pub record Limits : Type 0 where
  pub connections : ℕ
  pub master : ℕ
  pub aggressive : Bool
  pub eighty : ℕ → ℕ
  pub readers : ℕ

abbrev is_high : Priority → Bool
is_high high = true
is_high _ = false

abbrev is_normal : Priority → Bool
is_normal normal = true
is_normal _ = false

-- `localPriority[i]`
abbrev priority_of : Option Priority → Priority
priority_of none = unset
priority_of (some p) = p

-- How many pieces a reader may ask for.
unfoldable pub piece_count_for : Limits → Cache → ℕ
piece_count_for l c =
    let effective = if ltb 0 l.master then l.master else l.connections in
    let readers = if l.readers == 0 then 1 else l.readers in
    let most = if ltb c.capacity c.filled then 1 else l.eighty effective in
    let wanted = if l.aggressive then (if ltb most 1 then 1 else most) else effective / readers in
    let count = piece_budget_count wanted c.capacity c.piece_length in
    if ltb count 1 then 1 else count

-- `highPriorityWindow`
unfoldable pub high_window : Cache → ℕ
high_window c = let window = c.capacity / c.piece_length / 10 in if ltb window 5 then 5 else window

-- The priority that a piece gets; `unset` leaves it.
unfoldable pub new_priority : (window : ℕ) → Position → Map ℕ Priority → ℕ → Priority
new_priority window r pri i =
    if i == r.piece
    then now
    else if i == r.piece + 1
    then next
    else if ltb r.piece i && leb i r.rah_piece
    then readahead
    else if ltb r.rah_piece i && leb i (r.rah_piece + window)
    then (if is_high (priority_of (lookup i pri)) then unset else high)
    else if ltb (r.rah_piece + window) i
    then (if is_normal (priority_of (lookup i pri)) then unset else normal)
    else unset

abbrev set_priority : ℕ → Priority → Map ℕ Priority → Map ℕ Priority
set_priority i unset pri = pri
set_priority i p pri = insert i p pri

-- The loop over the pieces of one reader; the fuel counts the pieces up to the last one of the cache.
unfoldable pub prioritize :
    (window count : ℕ)
    → Position
    → Map ℕ Piece
    → ℕ
    → ℕ
    → ℕ
    → Map ℕ Priority
    → Option (Map ℕ Priority)
unfolding new_priority
prioritize window count r pieces zero i limit pri = some pri
prioritize window count r pieces (suc fuel) i limit pri =
    if not (ltb_ℤ (pos i) r.end && ltb limit count) then some pri else (elim (lookup i pieces) [
      | none ↦ none
      | some p ↦
          (let l' = if p.complete then limit else limit + 1 in
            let pri' =
              if p.complete then pri else set_priority i (new_priority window r pri i) pri in
            prioritize window count r pieces fuel (i + 1) l' pri')
    ])

unfoldable pub prioritize_readers :
    List (Range FileSpan)
    → (window count : ℕ) → Cache
    → List Position
    → Map ℕ Priority
    → Option (Map ℕ Priority)
unfolding prioritize
prioritize_readers ranges window count c [] pri = some pri
prioritize_readers ranges window count c (r ∷ rs) pri =
    if is_id_in_file_be c.piece_length ranges r.piece
    then prioritize_readers ranges window count c rs pri
    else (elim (prioritize window count r c.pieces (c.piece_count - r.piece) r.piece 0 pri) [
      | none ↦ none
      | some pri' ↦ prioritize_readers ranges window count c rs pri'
    ])

-- `setLoadPriority`
unfoldable pub set_load_priority :
    List (Range FileSpan) → List Position → Limits → Cache → Option Cache
unfolding prioritize_readers high_window piece_count_for
set_load_priority ranges readers limits c =
    if not c.torrent
    then some c
    else if c.piece_length == 0
    then none
    else (elim (prioritize_readers ranges (high_window c) (piece_count_for limits c) c readers
        c.local_priority) [ none ↦ none | some pri ↦ some (record c { local_priority = pri }) ])

-- The loop of `clearPriority`: a piece keeps its priority where a reader's window holds it.
unfoldable pub kept_priorities : List (Range FileSpan) → Map ℕ Priority → Map ℕ Priority
kept_priorities ranges [] = []
kept_priorities ranges ((id, p) ∷ pri) =
    let rest = kept_priorities ranges pri in
    if (length ranges == 0) || not (in_ranges ranges (pos id)) then rest else (id, p) ∷ rest

unfoldable pub clear_priority : List (Range FileSpan) → Cache → Cache
unfolding kept_priorities
clear_priority ranges c =
    if c.is_closed || not c.torrent
    then c
    else record c { local_priority = kept_priorities ranges c.local_priority }
