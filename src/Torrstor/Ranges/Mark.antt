-- ===== src/Torrstor/Ranges/Mark.antt =====
-- ranges.go: `fillPieceInRange` and `pieceEvictable`. A write outside the slice is a panic: `none`.
use tiramisu.Base.{
  ℕ, zero, suc, ◌+◌, ◌-◌, ◌≤◌, ◌<◌, ◌≡◌, refl, ap, ◌∙◌, Bool, true, false, not, ◌&&◌, ◌||◌, Option,
  none, some, List, [], ◌∷◌, map, length, set, get_or, ◌⊎◌, ltb, leb, if◌then◌else◌, arith,
  Bool-cases, inl, inr, length-set, length-map, get_or-set,
}
use tiramisu.Base.Int.{ℤ, pos, pos_part, ltb_ℤ, leb_ℤ, sub_ℕ}
use tiramisu.Torrstor.Ranges.Merge.{Range, covers, covered}

-- `n` rounds of the inner loop, from the index `i`.
mark_run : List Bool → ℕ → ℕ → Option (List Bool)
mark_run dst i zero = some dst
mark_run dst i (suc n) =
    let rest = mark_run (set dst i true) (i + 1) n in if ltb i (length dst) then rest else none

-- The rounds of `for i := start; i <= end; i++`.
unfoldable pub rounds : ℕ → ℤ → ℕ
rounds start end = if ltb_ℤ end (pos start) then 0 else pos_part end + 1 - start

-- The bounds of the loop, clamped to the slice.
window_start : {F : Type 0} → Range F → ℕ
window_start rng = if ltb_ℤ rng.start (pos 0) then 0 else pos_part rng.start

window_end : {F : Type 0} → Range F → ℕ → ℤ
window_end rng n = if leb_ℤ (pos n) rng.end then sub_ℕ n 1 else rng.end

mark_window : {F : Type 0} → List Bool → Range F → ℕ → Option (List Bool)
unfolding mark_run rounds window_start window_end
mark_window dst rng piece_count =
    let start = window_start rng in
    let end = window_end rng piece_count in mark_run dst start (rounds start end)

mark_windows : {F : Type 0} → List Bool → List (Range F) → ℕ → Option (List Bool)
unfolding mark_window
mark_windows dst [] piece_count = some dst
mark_windows dst (r ∷ rs) piece_count = elim (mark_window dst r piece_count) [
  | none ↦ none
  | some d ↦ mark_windows d rs piece_count
]

unfoldable pub fill_piece_in_range :
    {F : Type 0} → List Bool → List (Range F) → ℕ → Option (List Bool)
unfolding mark_windows
fill_piece_in_range dst ranges piece_count = mark_windows (map (λ _. false) dst) ranges piece_count

unfoldable pub piece_evictable : ℕ → Bool → Bool → Bool
piece_evictable size complete in_reader_window = ltb 0 size && complete && not in_reader_window

-- The result of a run that marks: a slice of the length `n` whose marks are `f`.
abbrev Marked : ℕ → (ℕ → Bool) → Option (List Bool) → Type 0
Marked n f none = ⊥
Marked n f (some d) = (length d ≡ n) × ((k : ℕ) → k < n → get_or d k false ≡ f k)

Marked-cong :
    {n m : ℕ} {f g : ℕ → Bool}
    → n ≡ m
    → ((k : ℕ) → k < m → f k ≡ g k)
    → (r : Option (List Bool)) → Marked n f r
    → Marked m g r
Marked-cong e fg none h = h
Marked-cong e fg (some d) h = (h.0 ∙ e, λ k lt. h.1 k (omega arith) ∙ fg k lt)

mark_run-Marked :
    (dst : List Bool) (i n : ℕ)
    → (n ≡ 0) ⊎ (i + n ≤ length dst)
    → Marked (length dst) (λ k. get_or dst k false || (leb i k && ltb k (i + n))) (mark_run dst i n)
unfolding mark_run
mark_run-Marked dst i zero h = (refl, λ k lt. ground arith)
mark_run-Marked dst i (suc n) h = elim (Bool-cases (ltb i (length dst))) [
  | inl within ↦ rw within (
      Marked-cong (length-set dst i true)
        (λ k lt. ground (arith, get_or-set dst i k true false (ground arith)))
        (mark_run (set dst i true) (i + 1) n)
        (mark_run-Marked (set dst i true) (i + 1) n (omega (arith, length-set dst i true))))
  | inr outside ↦ absurd (ground arith)
]

module _ {F : Type 0} (rng : Range F) where
  -- The rounds stay within the slice, and are those of the window's pieces.
  rounds_fit :
      (n : ℕ)
      → (rounds (window_start rng) (window_end rng n) ≡ 0)
        ⊎ (window_start rng + rounds (window_start rng) (window_end rng n) ≤ n)
  unfolding rounds window_start window_end
  rounds_fit n = ground arith

  rounds-covers :
      (n k : ℕ)
      → k < n
      → (leb (window_start rng) k
          && ltb k (window_start rng + rounds (window_start rng) (window_end rng n)))
        ≡ covers rng (pos k)
  unfolding rounds window_start window_end
  rounds-covers n k h = ground arith

mark_window-Marked :
    {F : Type 0} (dst : List Bool) (rng : Range F) (n : ℕ)
    → length dst ≡ n
    → Marked n (λ k. get_or dst k false || covers rng (pos k)) (mark_window dst rng n)
unfolding mark_window
mark_window-Marked dst rng n e =
    let start = window_start rng in
    let count = rounds start (window_end rng n) in
    Marked-cong e (λ k lt. ap (◌||◌ (get_or dst k false)) (rounds-covers rng n k lt))
      (mark_run dst start count) (mark_run-Marked dst start count (rw e (rounds_fit rng n)))

or_assoc : (a b c : Bool) → ((a || b) || c) ≡ (a || (b || c))
or_assoc true b c = refl
or_assoc false b c = refl

-- `dst'` holds the marks of `dst` and of a window; the other windows add theirs.
mark_windows-Marked :
    {F : Type 0} (rs : List (Range F)) (dst : List Bool) (n : ℕ)
    → length dst ≡ n
    → Marked n (λ k. get_or dst k false || covered rs (pos k)) (mark_windows dst rs n)
unfolding mark_windows covered
mark_windows-Marked [] dst n e = (e, λ k lt. ground arith)
mark_windows-Marked (r ∷ rs) dst n e =
    go (mark_window dst r n) (mark_window-Marked dst r n e) (λ d. mark_windows-Marked rs d n)
  where
    go :
        (m : Option (List Bool))
        → Marked n (λ k. get_or dst k false || covers r (pos k)) m
        → ((d : List Bool)
            → length d ≡ n
            → Marked n (λ k. get_or d k false || covered rs (pos k)) (mark_windows d rs n))
        → Marked n
            (λ k. get_or dst k false || (covers r (pos k) || covered rs (pos k)))
            (elim m [ none ↦ none | some d ↦ mark_windows d rs n ])
    go none h ih = h
    go (some d) h ih =
        Marked-cong refl
          (λ k lt.
            ap (λ b. b || covered rs (pos k)) (h.1 k lt)
            ∙ or_assoc (get_or dst k false) (covers r (pos k)) (covered rs (pos k)))
          (mark_windows d rs n) (ih d h.0)

get_or-map-false : (dst : List Bool) (k : ℕ) → get_or (map (λ _. false) dst) k false ≡ false
get_or-map-false [] k = refl
get_or-map-false (b ∷ dst) zero = refl
get_or-map-false (b ∷ dst) (suc k) = get_or-map-false dst k

Marked→some :
    {n : ℕ} {f : ℕ → Bool} (r : Option (List Bool))
    → Marked n f r
    → (d : List Bool) × (r ≡ some d) × (length d ≡ n) × ((k : ℕ) → k < n → get_or d k false ≡ f k)
Marked→some none h = absurd h
Marked→some (some d) h = (d, refl, h.0, h.1)

-- For a bitmap with one entry for each piece the rebuild does not panic, keeps the length, and marks
-- exactly the pieces that lie in one of the windows, whatever the bitmap held and however far the
-- windows reach outside the torrent.
pub fill_piece_in_range-covered :
    {F : Type 0} (dst : List Bool) (ranges : List (Range F)) (piece_count : ℕ)
    → length dst ≡ piece_count
    → (d : List Bool) × (fill_piece_in_range dst ranges piece_count ≡ some d)
      × (length d ≡ piece_count)
      × ((k : ℕ) → k < piece_count → get_or d k false ≡ covered ranges (pos k))
unfolding fill_piece_in_range
fill_piece_in_range-covered dst ranges n e =
    let cleared = map (λ _. false) dst in
    Marked→some (mark_windows cleared ranges n) (
      Marked-cong refl (λ k lt. rw (get_or-map-false dst k)) (mark_windows cleared ranges n)
        (mark_windows-Marked ranges cleared n (length-map dst (λ _. false) ∙ e)))
