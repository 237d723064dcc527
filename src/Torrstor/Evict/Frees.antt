-- ===== src/Torrstor/Evict/Frees.antt =====
-- cache.go: how much the eviction pass frees.
use tiramisu.Base.{
  ℕ, zero, suc, ◌+◌, ◌-◌, ◌*◌, ◌/◌, ◌≤◌, ◌<◌, ◌≡◌, refl, sym, ◌∙◌, inl, inr, Bool, true, false,
  none, some, List, [], ◌∷◌, length, ltb, leb, arith, Bool-cases,
}
use native.Mathlib.Nat.{lt-div-mul-add}
use tiramisu.Base.Eq.{nat_eq, =?_iff}
use tiramisu.Base.GoMap.{Map, lookup, insert, Unique, lookup-insert}
use tiramisu.Torrstor.Ranges.{Range, merge_range}
use tiramisu.Torrstor.Ranges.Mark.{fill_piece_in_range}
use tiramisu.Torrstor.PieceCache.{FileSpan, Piece, Cache}
use tiramisu.Torrstor.Priority.{Position, Limits}
use tiramisu.Torrstor.Priority.Total.{HoldsAll}
use tiramisu.Torrstor.Evict.{
  evict, removable, scan, sort_by_access, insert_by_access, release, remove_pieces,
}
use tiramisu.Torrstor.Evict.Protects.{All, All-lookup, evict-live}

-- The bytes that the pieces of a map hold.
unfoldable pub total : Map ℕ Piece → ℕ
total [] = 0
total ((id, p) ∷ ps) = p.size + total ps

-- The scan counts every byte.
pub scan-total : (test : ℕ → Piece → Bool) (ps : Map ℕ Piece) → (scan test ps).0 ≡ total ps
unfolding scan total
scan-total test [] = refl
scan-total test ((id, p) ∷ ps) = omega (arith, scan-total test ps)

total-release :
    (id : ℕ) (p : Piece) (ps : Map ℕ Piece)
    → lookup id ps ≡ some p
    → total (insert id (release p) ps) + p.size ≡ total ps
unfolding lookup insert total
total-release id p [] h = ground arith
total-release id p ((j, q) ∷ ps) h = ground (arith, total-release id p ps)

-- The candidates are pieces of the map, each once, that hold a full piece.
abbrev pub Full : ℕ → List (ℕ × Piece) → Map ℕ Piece → Type 0
Full n [] ps = Unit
Full n ((id, p) ∷ l) ps =
    (lookup id ps ≡ some p) × (p.size ≡ n) × (lookup id l ≡ none) × Full n l ps

Full-insert :
    (n id : ℕ) (p : Piece) (l : List (ℕ × Piece)) (ps : Map ℕ Piece)
    → lookup id l ≡ none
    → Full n l ps
    → Full n l (insert id (release p) ps)
unfolding lookup
Full-insert n id p [] ps h f = tt
Full-insert n id p ((j, q) ∷ l) ps h f = (
  ground (arith, lookup-insert id j (release p) ps, =?_iff id j, =?_iff j id),
  f.1,
  f.2,
  Full-insert n id p l ps (ground arith) f.3,
)

remainder :
    (k n t : ℕ) {u v s : ℕ} → t + (k - 1) * n ≡ u → s ≡ n → u + s ≡ v → 0 < k → t + k * n ≡ v
remainder zero n t p q r h = absurd (omega arith)
remainder (suc k) n t p q r h = grind arith

-- Removing `k` of at least `k` full pieces frees `k` times the piece length.
pub total-remove_pieces :
    (n k : ℕ) (l : List (ℕ × Piece)) (ps : Map ℕ Piece)
    → Full n l ps
    → 0 < k
    → k ≤ length l
    → total (remove_pieces k l ps) + k * n ≡ total ps
unfolding remove_pieces
total-remove_pieces n k [] ps f h e = absurd (omega arith)
total-remove_pieces n k ((id, p) ∷ l) ps f h e = elim (Bool-cases (leb k 1)) [
  | inl last ↦ rw last (ground (arith, total-release id p ps))
  | inr more ↦ rw more (
      remainder k n _
        (total-remove_pieces n (k - 1) l (insert id (release p) ps)
          (Full-insert n id p l ps f.2 f.3) (ground arith) (ground arith))
        f.1 (total-release id p ps f.0) (ground arith))
]

length-insert_by_access :
    (a : ℕ × Piece) (l : List (ℕ × Piece)) → length (insert_by_access a l) ≡ length l + 1
unfolding insert_by_access
length-insert_by_access a [] = omega arith
length-insert_by_access a (b ∷ l) = ground (arith, length-insert_by_access a l)

length-sort : (l : List (ℕ × Piece)) → length (sort_by_access l) ≡ length l
unfolding sort_by_access
length-sort [] = refl
length-sort (a ∷ l) = omega (arith, length-sort l, length-insert_by_access a (sort_by_access l))

lookup-insert_by_access :
    (id : ℕ) (a : ℕ × Piece) (l : List (ℕ × Piece))
    → (a.0 ≡ id → ⊥)
    → lookup id l ≡ none
    → lookup id (insert_by_access a l) ≡ none
unfolding insert_by_access lookup
lookup-insert_by_access id a [] n h = ground (arith, =?_iff a.0 id)
lookup-insert_by_access id a (b ∷ l) n h =
    ground (arith, =?_iff a.0 id, lookup-insert_by_access id a l n)

lookup-sort :
    (id : ℕ) (l : List (ℕ × Piece)) → lookup id l ≡ none → lookup id (sort_by_access l) ≡ none
unfolding sort_by_access lookup
lookup-sort id [] h = refl
lookup-sort id (a ∷ l) h =
    lookup-insert_by_access id a (sort_by_access l) (λ e. ground (arith, =?_iff a.0 id))
      (lookup-sort id l (ground arith))

Full-insert_by_access :
    (n id : ℕ) (p : Piece) (l : List (ℕ × Piece)) (ps : Map ℕ Piece)
    → lookup id ps ≡ some p
    → p.size ≡ n
    → lookup id l ≡ none
    → Full n l ps
    → Full n (insert_by_access (id, p) l) ps
unfolding insert_by_access lookup
Full-insert_by_access n id p [] ps h s u f = (h, s, refl, tt)
Full-insert_by_access n id p ((j, q) ∷ l) ps h s u f =
    elim (Bool-cases (ltb q.accessed p.accessed)) [
      | inl later ↦ rw later (
        f.0,
        f.1,
        lookup-insert_by_access j (id, p) l (λ e. ground (arith, =?_iff j id)) f.2,
        Full-insert_by_access n id p l ps h s (ground arith) f.3,
      )
      | inr first ↦ rw first (h, s, u, f)
    ]

Full-sort :
    (n : ℕ) (l : List (ℕ × Piece)) (ps : Map ℕ Piece) → Full n l ps → Full n (sort_by_access l) ps
unfolding sort_by_access
Full-sort n [] ps f = tt
Full-sort n ((id, p) ∷ l) ps f =
    Full-insert_by_access n id p (sort_by_access l) ps f.0 f.1 (lookup-sort id l f.2)
      (Full-sort n l ps f.3)

lookup-scan :
    (test : ℕ → Piece → Bool) (id : ℕ) (ps : Map ℕ Piece)
    → lookup id ps ≡ none
    → lookup id (scan test ps).1 ≡ none
unfolding scan lookup
lookup-scan test id [] h = refl
lookup-scan test id ((j, q) ∷ ps) h = ground (arith, lookup-scan test id ps)

-- The candidates of a scan of a part of the map `all`.
module _ (n : ℕ) (test : ℕ → Piece → Bool) (all : Map ℕ Piece)
    (full : (id : ℕ) (p : Piece) → lookup id all ≡ some p → test id p ≡ true → p.size ≡ n) where
  Full-scan :
      (ps : Map ℕ Piece)
      → Unique ps
      → All (λ id p. lookup id all ≡ some p) ps
      → Full n (scan test ps).1 all
  unfolding scan
  Full-scan [] u h = tt
  Full-scan ((id, p) ∷ ps) u h = elim (Bool-cases (test id p)) [
    | inl e ↦ rw e (h.0, full id p h.0 e, lookup-scan test id ps u.0, Full-scan ps u.1 h.1)
    | inr e ↦ rw e (Full-scan ps u.1 h.1)
  ]

excess :
    (filled capacity n t : ℕ)
    → 0 < n
    → capacity < filled
    → t + ((filled - capacity) / n + 1) * n ≡ filled
    → t ≤ capacity
excess filled capacity n t h over e =
    let k : filled - capacity < (filled - capacity) / n * n + n = lt-div-mul-add h in grind arith

-- The test of the scan against a bitmap.
abbrev pub candidate : List (Range FileSpan) → Cache → List Bool → ℕ → Piece → Bool
candidate windows c bitmap = removable c.piece_length (merge_range windows) bitmap

-- The pass brings the bytes that the cache holds down to its capacity if it is not closed, holds all its
-- pieces, each candidate holds a whole piece, and there are as many candidates as the excess needs.
pub evict_frees :
    (windows : List (Range FileSpan)) (readers : List Position) (limits : Limits) (c : Cache)
    (bitmap : List Bool)
    → c.is_closed ≡ false
    → fill_piece_in_range c.piece_in_range (merge_range windows) c.piece_count ≡ some bitmap
    → Unique c.pieces
    → HoldsAll c.piece_count c.pieces
    → 0 < c.piece_length
    → ((id : ℕ) (p : Piece)
        → lookup id c.pieces ≡ some p
        → candidate windows c bitmap id p ≡ true
        → p.size ≡ c.piece_length)
    → (total c.pieces - c.capacity) / c.piece_length + 1
      ≤ length (scan (candidate windows c bitmap) c.pieces).1
    → (c' : Cache) × (evict windows readers limits c ≡ some c') × (total c'.pieces ≤ c.capacity)
evict_frees windows readers limits c bitmap live filled u all pos_length full enough =
    let test = candidate windows c bitmap in
    let found = scan test c.pieces in
    let rem = sort_by_access found.1 in
    let n = c.piece_length in
    let rems = (found.0 - c.capacity) / n + 1 in
    let (pri, pass) = evict-live windows readers limits c bitmap live filled all pos_length in
    (
      _,
      pass,
      elim (Bool-cases (ltb c.capacity found.0)) [
        | inl over ↦ rw over (
            excess found.0 c.capacity n _ pos_length (ground arith) (
              total-remove_pieces n rems rem c.pieces
                (Full-sort n found.1 c.pieces
                  (Full-scan n test c.pieces full c.pieces u (All-lookup c.pieces u)))
                (omega arith) (rw (length-sort found.1, scan-total test c.pieces) enough)
              ∙ sym (scan-total test c.pieces)))
        | inr fits ↦ rw fits (ground (arith, scan-total test c.pieces))
      ],
    )
