-- ===== src/Torrstor/Priority/Total.antt =====
-- cache.go: the loops over the priorities end without a panic on a cache that holds all its pieces.
use tiramisu.Base.{
  ℕ, zero, suc, ◌+◌, ◌-◌, ◌≤◌, ◌<◌, ◌≡◌, ◌≢◌, refl, inl, inr, not, ◌&&◌, ◌||◌, none, some, List, [],
  ◌∷◌, ltb, arith, Bool-cases, Option-cases,
}
use tiramisu.Base.Eq.{nat_eq}
use tiramisu.Base.GoMap.{Map, lookup}
use tiramisu.Base.Int.{pos, ltb_ℤ}
use tiramisu.Torrstor.PieceCache.{FileSpan, Piece, Cache, Priority, is_id_in_file_be}
use tiramisu.Torrstor.Ranges.{Range}
use tiramisu.Torrstor.Priority.{
  Position, Limits, prioritize, prioritize_readers, set_load_priority, high_window, piece_count_for,
  clear_priority, kept_priorities,
}

-- Every piece of the torrent is in the map, as `Init` leaves it.
abbrev pub HoldsAll : ℕ → Map ℕ Piece → Type 0
HoldsAll n pieces = (i : ℕ) → i < n → lookup i pieces ≢ none

prioritize-total :
    (window count : ℕ) (r : Position) (pieces : Map ℕ Piece) (n fuel i limit : ℕ)
    (pri : Map ℕ Priority)
    → HoldsAll n pieces
    → fuel ≤ n - i
    → (pri' : Map ℕ Priority) × (prioritize window count r pieces fuel i limit pri ≡ some pri')
unfolding prioritize
prioritize-total window count r pieces n zero i limit pri h f = (pri, refl)
prioritize-total window count r pieces n (suc fuel) i limit pri h f =
    elim (Bool-cases (ltb_ℤ (pos i) r.end && ltb limit count)) [
      | inr e ↦ (pri, rw (e, prioritize) refl)
      | inl e ↦ elim (Option-cases (lookup i pieces)) [
        | inl gone ↦ absurd (h i (omega (arith, f)) gone)
        | inr (p, found) ↦
            rw (e, found, prioritize)
              (prioritize-total window count r pieces n fuel (i + 1) _ _ h (omega (arith, f)))
      ]
    ]

prioritize_readers-total :
    (ranges : List (Range FileSpan)) (window count : ℕ) (c : Cache) (rs : List Position)
    (pri : Map ℕ Priority)
    → HoldsAll c.piece_count c.pieces
    → (pri' : Map ℕ Priority) × (prioritize_readers ranges window count c rs pri ≡ some pri')
unfolding prioritize_readers
prioritize_readers-total ranges window count c [] pri h = (pri, refl)
prioritize_readers-total ranges window count c (r ∷ rs) pri h =
    elim (Bool-cases (is_id_in_file_be c.piece_length ranges r.piece)) [
      | inl e ↦ rw (e, prioritize_readers) (prioritize_readers-total ranges window count c rs pri h)
      | inr e ↦
          let (pri', done) =
            prioritize-total window count r c.pieces c.piece_count (c.piece_count - r.piece) r.piece
              0 pri h (omega arith) in
          rw (e, done, prioritize_readers)
            (prioritize_readers-total ranges window count c rs pri' h)
    ]

-- With a positive piece length and all pieces, only the record of the priorities changes.
pub set_load_priority-total :
    (ranges : List (Range FileSpan)) (readers : List Position) (limits : Limits) (c : Cache)
    → HoldsAll c.piece_count c.pieces
    → 0 < c.piece_length
    → (pri : Map ℕ Priority) × (set_load_priority ranges readers limits c
        ≡ some (record c { local_priority = pri }))
unfolding set_load_priority
set_load_priority-total ranges readers limits c h n =
    let (pri, done) =
      prioritize_readers-total ranges (high_window c) (piece_count_for limits c) c readers
        c.local_priority h in
    elim (Bool-cases c.torrent) [
      | inl e ↦ (pri, ground (arith, e, done, n))
      | inr e ↦ (c.local_priority, ground (arith, e))
    ]

pub clear_priority-only :
    (ranges : List (Range FileSpan)) (c : Cache)
    → (pri : Map ℕ Priority) × (clear_priority ranges c ≡ record c { local_priority = pri })
unfolding clear_priority
clear_priority-only ranges c = elim (Bool-cases (c.is_closed || not c.torrent)) [
  | inl e ↦ (c.local_priority, rw (e, clear_priority) refl)
  | inr e ↦ (kept_priorities ranges c.local_priority, rw (e, clear_priority) refl)
]
