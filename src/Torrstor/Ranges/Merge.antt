-- ===== src/Torrstor/Ranges/Merge.antt =====
-- ranges.go: `Range` and `mergeRange`.
use tiramisu.Base.{
  ◌≡◌, refl, Bool, true, false, ◌&&◌, ◌||◌, List, [], ◌∷◌, length, leb, if◌then◌else◌, arith,
  Bool-cases, inl, inr,
}
use tiramisu.Base.Int.{ℤ, ◌≤ℤ◌, ltb_ℤ, leb_ℤ, eq_ℤ}

pub record Range (F : Type 0) : Type 0 where
  pub start : ℤ
  pub end : ℤ
  pub file : F

-- The comparison that `mergeRange` hands to `sort.Slice`.
unfoldable pub range_less : {F : Type 0} → Range F → Range F → Bool
range_less a b =
    if ltb_ℤ a.start b.start
    then true
    else if eq_ℤ a.start b.start && ltb_ℤ a.end b.end
    then true
    else false

module _ {F : Type 0} where
  insert_sorted : Range F → List (Range F) → List (Range F)
  insert_sorted r [] = r ∷ []
  insert_sorted r (x ∷ xs) = if range_less r x then r ∷ x ∷ xs else x ∷ insert_sorted r xs

  -- `sort.Slice` on the copy: the same elements in the order of the comparison.
  unfoldable pub sort_ranges : List (Range F) → List (Range F)
  unfolding insert_sorted range_less
  sort_ranges [] = []
  sort_ranges (r ∷ rs) = insert_sorted r (sort_ranges rs)

  -- The loop: `cur` is `merged[j]`, and what is in front of it is final.
  unfoldable pub merge_from : Range F → List (Range F) → List (Range F)
  merge_from cur [] = cur ∷ []
  merge_from cur (r ∷ rs) =
      let joined =
        merge_from (if ltb_ℤ cur.end r.end then record cur { end = r.end } else cur) rs in
      let next = cur ∷ merge_from r rs in if leb_ℤ r.start cur.end then joined else next

  unfoldable pub merge_sorted : List (Range F) → List (Range F)
  merge_sorted [] = []
  merge_sorted (r ∷ rs) = merge_from r rs

  unfoldable pub merge_range : List (Range F) → List (Range F)
  unfolding sort_ranges merge_from merge_sorted
  merge_range rs = if leb (length rs) 1 then rs else merge_sorted (sort_ranges rs)

  -- The piece `p` lies in the window, in one of the windows.
  abbrev pub covers : Range F → ℤ → Bool
  covers r p = leb_ℤ r.start p && leb_ℤ p r.end

  unfoldable pub covered : List (Range F) → ℤ → Bool
  covered [] p = false
  covered (r ∷ rs) p = covers r p || covered rs p

  abbrev pub StartsFrom : ℤ → List (Range F) → Type 0
  StartsFrom s [] = Unit
  StartsFrom s (r ∷ rs) = (s ≤ℤ r.start) × StartsFrom s rs

  abbrev pub IsSorted : List (Range F) → Type 0
  IsSorted [] = Unit
  IsSorted (r ∷ rs) = StartsFrom r.start rs × IsSorted rs

  abbrev pub Beyond : ℤ → List (Range F) → Type 0
  Beyond e [] = Unit
  Beyond e (r ∷ rs) = (ltb_ℤ e r.start ≡ true) × Beyond e rs

  abbrev pub AllValid : List (Range F) → Type 0
  AllValid [] = Unit
  AllValid (r ∷ rs) = (r.start ≤ℤ r.end) × AllValid rs

  -- Windows in order that neither overlap nor touch the next one's start.
  abbrev pub Apart : List (Range F) → Type 0
  Apart [] = Unit
  Apart (r ∷ rs) = (r.start ≤ℤ r.end) × Beyond r.end rs × Apart rs

  pub StartsFrom-le : (s t : ℤ) (rs : List (Range F)) → s ≤ℤ t → StartsFrom t rs → StartsFrom s rs
  StartsFrom-le s t [] h k = tt
  StartsFrom-le s t (r ∷ rs) h k = (omega arith, StartsFrom-le s t rs h k.1)

  StartsFrom-insert :
      (s : ℤ) (r : Range F) (rs : List (Range F))
      → s ≤ℤ r.start
      → StartsFrom s rs
      → StartsFrom s (insert_sorted r rs)
  unfolding insert_sorted
  StartsFrom-insert s r [] h k = (h, tt)
  StartsFrom-insert s r (x ∷ xs) h k = elim (Bool-cases (range_less r x)) [
    | inl e ↦ rw e (h, (k.0, k.1))
    | inr e ↦ rw e (k.0, StartsFrom-insert s r xs h k.1)
  ]

  less→le : (r x : Range F) → range_less r x ≡ true → r.start ≤ℤ x.start
  unfolding range_less
  less→le r x h = ground arith

  not_less→le : (r x : Range F) → range_less r x ≡ false → x.start ≤ℤ r.start
  unfolding range_less
  not_less→le r x h = ground arith

  insert-IsSorted :
      (r : Range F) (rs : List (Range F)) → IsSorted rs → IsSorted (insert_sorted r rs)
  unfolding insert_sorted
  insert-IsSorted r [] h = (tt, tt)
  insert-IsSorted r (x ∷ xs) h = elim (Bool-cases (range_less r x)) [
    | inl e ↦
        let k : r.start ≤ℤ x.start = less→le r x e in
        rw e ((k, StartsFrom-le r.start x.start xs k h.0), h)
    | inr e ↦
        rw e (StartsFrom-insert x.start r xs (not_less→le r x e) h.0, insert-IsSorted r xs h.1)
  ]

  pub sort-IsSorted : (rs : List (Range F)) → IsSorted (sort_ranges rs)
  unfolding sort_ranges
  sort-IsSorted [] = tt
  sort-IsSorted (r ∷ rs) = insert-IsSorted r (sort_ranges rs) (sort-IsSorted rs)

  covered-insert :
      (r : Range F) (rs : List (Range F)) (p : ℤ)
      → covered (insert_sorted r rs) p ≡ (covers r p || covered rs p)
  unfolding insert_sorted covered
  covered-insert r [] p = refl
  covered-insert r (x ∷ xs) p = elim (Bool-cases (range_less r x)) [
    | inl e ↦ rw e refl
    | inr e ↦ rw (e, covered-insert r xs p) (ground arith)
  ]

  pub covered-sort : (rs : List (Range F)) (p : ℤ) → covered (sort_ranges rs) p ≡ covered rs p
  unfolding sort_ranges covered
  covered-sort [] p = refl
  covered-sort (r ∷ rs) p = rw (covered-insert r (sort_ranges rs) p, covered-sort rs p)

  insert-AllValid :
      (r : Range F) (rs : List (Range F))
      → r.start ≤ℤ r.end
      → AllValid rs
      → AllValid (insert_sorted r rs)
  unfolding insert_sorted
  insert-AllValid r [] h v = (h, tt)
  insert-AllValid r (x ∷ xs) h v = elim (Bool-cases (range_less r x)) [
    | inl e ↦ rw e (h, v)
    | inr e ↦ rw e (v.0, insert-AllValid r xs h v.1)
  ]

  pub sort-AllValid : (rs : List (Range F)) → AllValid rs → AllValid (sort_ranges rs)
  unfolding sort_ranges
  sort-AllValid [] v = tt
  sort-AllValid (r ∷ rs) v = insert-AllValid r (sort_ranges rs) v.0 (sort-AllValid rs v.1)
