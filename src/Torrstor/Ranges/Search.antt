-- ===== src/Torrstor/Ranges/Search.antt =====
-- ranges.go: `inRanges`, a binary search of Go's `sort.Search` over the merged windows.
use tiramisu.Base.{
  ℕ, zero, suc, ◌+◌, ◌/◌, ◌≤◌, ◌<◌, ◌≡◌, refl, Bool, true, false, none, some, List, [], ◌∷◌, length,
  get_elem?, ltb, if◌then◌else◌, arith, Bool-cases, ◌⊎◌, sym, ◌∙◌, inl, inr,
}
use mathlib.Core.Bool.{false≢true}
use tiramisu.Base.Int.{ℤ, ◌≤ℤ◌, leb_ℤ}
use tiramisu.Torrstor.Ranges.Merge.{Range, covered, Beyond, Apart}

-- The loop of `sort.Search` over the half-open interval from `i` to `j`; the interval shrinks each
-- round, so its length is fuel enough.
search_loop : ℕ → ℕ → ℕ → (ℕ → Bool) → ℕ
search_loop zero i j f = i
search_loop (suc fuel) i j f =
    let h = (i + j) / 2 in
    let left = search_loop fuel i h f in
    let right = search_loop fuel (h + 1) j f in if ltb i j then (if f h then left else right) else i

unfoldable pub sort_search : ℕ → (ℕ → Bool) → ℕ
unfolding search_loop
sort_search n f = search_loop n 0 n f

module _ {F : Type 0} where
  unfoldable pub ends_from : ℤ → List (Range F) → ℕ → Bool
  ends_from ind ranges i = elim (get_elem? ranges i) [ none ↦ false | some r ↦ leb_ℤ ind r.end ]

  unfoldable pub in_ranges : List (Range F) → ℤ → Bool
  unfolding sort_search ends_from
  in_ranges ranges ind =
      let i = sort_search (length ranges) (ends_from ind ranges) in
      elim (get_elem? ranges i) [ none ↦ false | some r ↦ leb_ℤ r.start ind ]

-- `f` is true from `r` on up to `n`, and false below.
pub record Splits (n : ℕ) (f : ℕ → Bool) (r : ℕ) : Type 0 where
  pub within : r ≤ n
  pub below : (m : ℕ) → m < r → f m ≡ false
  pub above : (m : ℕ) → r ≤ m → m < n → f m ≡ true

module _ (n : ℕ) (f : ℕ → Bool) (mono : (a b : ℕ) → a ≤ b → b < n → f a ≡ true → f b ≡ true) where
  search_loop-Splits :
      (fuel i j : ℕ)
      → i ≤ j
      → j ≤ n
      → j ≤ i + fuel
      → ((m : ℕ) → m < i → f m ≡ false)
      → ((m : ℕ) → j ≤ m → m < n → f m ≡ true)
      → Splits n f (search_loop fuel i j f)
  unfolding search_loop
  search_loop-Splits zero i j ij jn enough lo hi = record {
    within = omega arith;
    below = lo;
    above = λ m h k. hi m (omega arith) k;
  }
  search_loop-Splits (suc fuel) i j ij jn enough lo hi =
      let h = (i + j) / 2 in
      elim (Bool-cases (ltb i j)) [
        | inl more ↦ elim (Bool-cases (f h)) [
          | inl up ↦
              rw (more, up)
                (search_loop-Splits fuel i h (ground arith) (ground arith) (ground arith) lo
                  (λ m k l. mono h m k l up))
          | inr down ↦
              rw (more, down)
                (search_loop-Splits fuel (h + 1) j (ground arith) jn (ground arith)
                  (λ m k. below_false m (Bool-cases (f m)) (ground arith) (ground arith) down) hi)
        ]
        | inr done ↦
            rw done
              (record { within = omega arith; below = lo; above = λ m h k. hi m (ground arith) k })
      ]
    where
      below_false :
          (m : ℕ)
          → (f m ≡ true) ⊎ (f m ≡ false)
          → m ≤ (i + j) / 2
          → (i + j) / 2 < n
          → f ((i + j) / 2) ≡ false
          → f m ≡ false
      below_false m (inl up) k lt down =
          absurd (false≢true (sym down ∙ mono m ((i + j) / 2) k lt up))
      below_false m (inr e) k lt down = e

  sort_search-Splits : Splits n f (sort_search n f)
  unfolding sort_search
  sort_search-Splits =
      search_loop-Splits n 0 n (omega arith) (omega arith) (omega arith)
        (λ m h. absurd (omega arith)) (λ m h k. absurd (omega arith))

module _ {F : Type 0} (ind : ℤ) where
  -- A window beyond a piece, and those after it, do not hold the piece.
  covered-Beyond : (e : ℤ) (rs : List (Range F)) → ind ≤ℤ e → Beyond e rs → covered rs ind ≡ false
  unfolding covered
  covered-Beyond e [] h b = refl
  covered-Beyond e (r ∷ rs) h b = ground (arith, covered-Beyond e rs)

  ends_from-Beyond :
      (e : ℤ) (rs : List (Range F)) (b : ℕ)
      → ind ≤ℤ e
      → Beyond e rs
      → Apart rs
      → b < length rs
      → ends_from ind rs b ≡ true
  unfolding ends_from
  ends_from-Beyond e [] b h k a lt = absurd (omega arith)
  ends_from-Beyond e (r ∷ rs) zero h k a lt = ground arith
  ends_from-Beyond e (r ∷ rs) (suc b) h k a lt = ends_from-Beyond e rs b h k.1 a.2 (omega arith)

  ends_from_mono :
      (rs : List (Range F)) (a b : ℕ)
      → Apart rs
      → a ≤ b
      → b < length rs
      → ends_from ind rs a ≡ true
      → ends_from ind rs b ≡ true
  unfolding ends_from
  ends_from_mono [] a b ap h lt e = absurd (omega arith)
  ends_from_mono (r ∷ rs) zero zero ap h lt e = e
  ends_from_mono (r ∷ rs) zero (suc b) ap h lt e =
      ends_from-Beyond r.end rs b (ground arith) ap.1 ap.2 (omega arith)
  ends_from_mono (r ∷ rs) (suc a) zero ap h lt e = absurd (omega arith)
  ends_from_mono (r ∷ rs) (suc a) (suc b) ap h lt e =
      ends_from_mono rs a b ap.2 (omega arith) (omega arith) e

  starts_by : List (Range F) → ℕ → Bool
  starts_by rs i = elim (get_elem? rs i) [ none ↦ false | some r ↦ leb_ℤ r.start ind ]

  -- At the first window that ends no earlier than the piece, the start decides.
  starts_by-covered :
      (rs : List (Range F)) (i : ℕ)
      → Apart rs
      → ((m : ℕ) → m < i → ends_from ind rs m ≡ false)
      → (i < length rs → ends_from ind rs i ≡ true)
      → starts_by rs i ≡ covered rs ind
  unfolding starts_by ends_from covered
  starts_by-covered [] i ap lo hi = refl
  starts_by-covered (r ∷ rs) zero ap lo hi =
      ground (arith, hi (omega arith), covered-Beyond r.end rs)
  starts_by-covered (r ∷ rs) (suc i) ap lo hi = ground (
    arith,
    lo 0 (omega arith),
    starts_by-covered rs i ap.2 (λ m h. lo (suc m) (omega arith)) (λ h. hi (omega arith)),
  )

  -- On windows in ascending order that do not touch, the binary search of `inRanges` answers
  -- exactly whether one of the windows holds the piece.
  pub in_ranges-covered : (rs : List (Range F)) → Apart rs → in_ranges rs ind ≡ covered rs ind
  unfolding in_ranges starts_by
  in_ranges-covered rs ap =
      let n = length rs in
      let s : Splits n (ends_from ind rs) (sort_search n (ends_from ind rs)) =
        sort_search-Splits n (ends_from ind rs) (λ a b. ends_from_mono rs a b ap) in
      starts_by-covered rs (sort_search n (ends_from ind rs)) ap s.below
        (λ h. s.above _ (omega arith) h)
