-- ===== src/Torrstor/Evict/Protects.antt =====
-- cache.go: what the eviction pass never drops.
use tiramisu.Base.{
  ℕ, ◌+◌, ◌-◌, ◌/◌, ◌<◌, if◌then◌else◌, ◌≡◌, refl, ap, sym, ◌∙◌, inl, inr, Bool, true, false, some,
  List, [], ◌∷◌, length, get_or, ltb, arith, Bool-cases,
}
use tiramisu.Base.Eq.{nat_eq, =?_iff}
use tiramisu.Base.GoMap.{Map, lookup, insert, Unique, lookup-insert}
use tiramisu.Base.Int.{pos}
use tiramisu.Torrstor.Ranges.{Range, covered, merge_range}
use tiramisu.Torrstor.Ranges.Union.{covered-merge_range}
use tiramisu.Torrstor.Ranges.Mark.{
  fill_piece_in_range, fill_piece_in_range-covered, piece_evictable,
}
use tiramisu.Torrstor.PieceCache.{FileSpan, Piece, Cache, Priority, is_id_in_file_be}
use tiramisu.Torrstor.Priority.{Position, Limits, set_load_priority, clear_priority}
use tiramisu.Torrstor.Priority.Total.{HoldsAll, set_load_priority-total, clear_priority-only}
use tiramisu.Torrstor.Evict.{
  removable, scan, sort_by_access, insert_by_access, get_rem_pieces, release, remove_pieces, trim,
  evict,
}

abbrev pub All : (ℕ → Piece → Type 0) → List (ℕ × Piece) → Type 0
All P [] = Unit
All P ((id, p) ∷ l) = P id p × All P l

pub All-map :
    {P Q : ℕ → Piece → Type 0} (l : List (ℕ × Piece))
    → ((id : ℕ) (p : Piece) → P id p → Q id p)
    → All P l
    → All Q l
All-map [] f h = tt
All-map ((id, p) ∷ l) f h = (f id p h.0, All-map l f h.1)

All-insert :
    (P : ℕ → Piece → Type 0) (id : ℕ) (p : Piece) (l : List (ℕ × Piece))
    → P id p
    → All P l
    → All P (insert_by_access (id, p) l)
unfolding insert_by_access
All-insert P id p [] h k = (h, tt)
All-insert P id p ((j, q) ∷ l) h k = elim (Bool-cases (ltb q.accessed p.accessed)) [
  | inl e ↦ rw e (k.0, All-insert P id p l h k.1)
  | inr e ↦ rw e (h, k)
]

pub All-sort : (P : ℕ → Piece → Type 0) (l : List (ℕ × Piece)) → All P l → All P (sort_by_access l)
unfolding sort_by_access
All-sort P [] h = tt
All-sort P ((id, p) ∷ l) h = All-insert P id p (sort_by_access l) h.0 (All-sort P l h.1)

-- Every entry of a map with distinct keys is what a lookup of its key finds.
pub All-lookup : (ps : Map ℕ Piece) → Unique ps → All (λ id p. lookup id ps ≡ some p) ps
unfolding lookup
All-lookup [] u = tt
All-lookup ((j, q) ∷ ps) u =
    (ground arith, All-map ps (λ id p h. ground (arith, =?_iff j id, h, u.0)) (All-lookup ps u.1))

All-scan :
    (P : ℕ → Piece → Type 0) (test : ℕ → Piece → Bool) (ps : Map ℕ Piece)
    → All P ps
    → All (λ id p. (test id p ≡ true) × P id p) (scan test ps).1
unfolding scan
All-scan P test [] h = tt
All-scan P test ((id, p) ∷ ps) h = elim (Bool-cases (test id p)) [
  | inl e ↦ rw e ((e, h.0), All-scan P test ps h.1)
  | inr e ↦ rw e (All-scan P test ps h.1)
]

-- Pieces that no candidate names stay as they are.
remove_pieces_keep :
    (id : ℕ) (p : Piece) (rems : ℕ) (l : List (ℕ × Piece)) (pieces : Map ℕ Piece)
    → All (λ j q. j ≡ id → ⊥) l
    → lookup id (remove_pieces rems l pieces) ≡ lookup id pieces
unfolding remove_pieces
remove_pieces_keep id p rems [] pieces h = refl
remove_pieces_keep id p rems ((j, q) ∷ l) pieces h = ground (
  arith,
  =?_iff j id,
  lookup-insert j id (release q) pieces,
  remove_pieces_keep id p (rems - 1) l (insert j (release q) pieces) h.1,
  h.0,
)

-- Why a piece has to stay.
pub data IsProtected (windows : List (Range FileSpan)) (c : Cache) (id : ℕ) (p : Piece)
    : Type 0 where
  incomplete : p.complete ≡ false → IsProtected windows c id p
  in_window : id < c.piece_count → covered windows (pos id) ≡ true → IsProtected windows c id p
  at_edge :
      is_id_in_file_be c.piece_length (merge_range windows) id ≡ true → IsProtected windows c id p

module _ (windows : List (Range FileSpan)) (c : Cache) (bitmap : List Bool)
    (size : length bitmap ≡ c.piece_count)
    (marks : (k : ℕ)
      → k < c.piece_count
      → get_or bitmap k false ≡ covered (merge_range windows) (pos k)) where
  not-removable :
      (id : ℕ) (p : Piece)
      → IsProtected windows c id p
      → removable c.piece_length (merge_range windows) bitmap id p ≡ false
  unfolding removable piece_evictable
  not-removable id p (incomplete e) = ground arith
  not-removable id p (in_window h e) =
      ground (arith, marks id h, covered-merge_range windows (pos id))
  not-removable id p (at_edge e) = ground arith

  candidates :
      Unique c.pieces
      → All
          (λ id p.
            (removable c.piece_length (merge_range windows) bitmap id p ≡ true)
            × (lookup id c.pieces ≡ some p))
          (sort_by_access (scan (removable c.piece_length (merge_range windows) bitmap) c.pieces).1)
  candidates u = All-sort _ _ (
      All-scan _ (removable c.piece_length (merge_range windows) bitmap) c.pieces
        (All-lookup c.pieces u))

  removal_keeps :
      Unique c.pieces
      → (rems id : ℕ) (p : Piece) → lookup id c.pieces ≡ some p
      → IsProtected windows c id p
      → lookup id (
          remove_pieces rems
            (sort_by_access
              (scan (removable c.piece_length (merge_range windows) bitmap) c.pieces).1)
            c.pieces)
        ≡ some p
  removal_keeps u rems id p h keep =
      remove_pieces_keep id p rems _ c.pieces (All-map _ (λ j q k e. differ j q k e) (candidates u))
      ∙ h
    where
      differ :
          (j : ℕ) (q : Piece)
          → (removable c.piece_length (merge_range windows) bitmap j q ≡ true)
            × (lookup j c.pieces ≡ some q)
          → j ≡ id
          → ⊥
      differ j q k e =
          let same : some q ≡ some p = sym k.1 ∙ ap (λ i. lookup i c.pieces) e ∙ h in
          cc (not-removable id p keep, k.0, e, same)

-- `trim` of a cache with a positive piece length.
abbrev pub trimmed : List (ℕ × Piece) → Cache → Cache
trimmed rem c =
    if ltb c.capacity c.filled
    then record c {
      pieces = remove_pieces ((c.filled - c.capacity) / c.piece_length + 1) rem c.pieces;
    }
    else c

trim-trimmed :
    (rem : List (ℕ × Piece)) (c : Cache) → 0 < c.piece_length → trim rem c ≡ some (trimmed rem c)
unfolding trim
trim-trimmed rem c h = ground (arith, h)

module _ (windows : List (Range FileSpan)) (readers : List Position) (limits : Limits)
    (c : Cache) where
  evict-closed :
      c.is_closed ≡ true → 0 < c.piece_length → evict windows readers limits c ≡ some (trimmed [] c)
  unfolding evict get_rem_pieces
  evict-closed h n = ground (arith, h, trim-trimmed [] c n)

  pub evict-live :
      (bitmap : List Bool)
      → c.is_closed ≡ false
      → fill_piece_in_range c.piece_in_range (merge_range windows) c.piece_count ≡ some bitmap
      → HoldsAll c.piece_count c.pieces
      → 0 < c.piece_length
      → let found = scan (removable c.piece_length (merge_range windows) bitmap) c.pieces in
        (pri : Map ℕ Priority) × (evict windows readers limits c
          ≡ some (
              trimmed
                (sort_by_access found.1)
                (record c { piece_in_range = bitmap; local_priority = pri; filled = found.0 })))
  unfolding evict get_rem_pieces
  evict-live bitmap live e all n =
      let ranges = merge_range windows in
      let found = scan (removable c.piece_length ranges bitmap) c.pieces in
      let marked : Cache = record c { piece_in_range = bitmap } in
      let (cleared, e1) = clear_priority-only ranges marked in
      let (pri, e2) =
        set_load_priority-total ranges readers limits (record marked { local_priority = cleared })
          all n in
      let loaded : set_load_priority ranges readers limits (clear_priority ranges marked)
          ≡ some (record marked { local_priority = pri }) =
        ap (λ x. set_load_priority ranges readers limits x) e1 ∙ e2 in
      let last =
        trim-trimmed (sort_by_access found.1)
          (record marked { local_priority = pri; filled = found.0 }) n in
      let found_rem : get_rem_pieces windows readers limits c
          ≡ some
              (sort_by_access found.1, record marked { local_priority = pri; filled = found.0 }) =
        ground (arith, live, e, loaded, n) in
      (pri, rw (found_rem, evict) last)

  -- On a cache with a positive piece length, all its pieces and one bitmap entry for each of them, the
  -- eviction pass does not panic, and it leaves every piece as it is that is incomplete, that lies in the
  -- window of a reader, or that lies at the head or the tail of a file of the merged windows.
  pub evict-protects :
      Unique c.pieces
      → HoldsAll c.piece_count c.pieces
      → 0 < c.piece_length
      → length c.piece_in_range ≡ c.piece_count
      → (c' : Cache) × (evict windows readers limits c ≡ some c')
        × ((id : ℕ) (p : Piece)
            → lookup id c.pieces ≡ some p
            → IsProtected windows c id p
            → lookup id c'.pieces ≡ some p)
  unfolding remove_pieces
  evict-protects u all pos_length n =
      let (bitmap, filled, size, marks) =
        fill_piece_in_range-covered c.piece_in_range (merge_range windows) c.piece_count n in
      let found = scan (removable c.piece_length (merge_range windows) bitmap) c.pieces in
      elim (Bool-cases c.is_closed) [
        | inl closed ↦ (trimmed [] c, evict-closed closed pos_length, λ id p h keep. ground arith)
        | inr live ↦
            let (pri, pass) = evict-live bitmap live filled all pos_length in
            (
              _,
              pass,
              λ id p h keep. elim (Bool-cases (ltb c.capacity found.0)) [
                | inl over ↦ rw over (removal_keeps windows c bitmap size marks u _ id p h keep)
                | inr fits ↦ rw fits h
              ],
            )
      ]
