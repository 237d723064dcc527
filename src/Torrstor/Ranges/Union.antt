-- ===== src/Torrstor/Ranges/Union.antt =====
-- ranges.go: what `mergeRange` keeps, and the shape of what it returns.
use tiramisu.Base.{
  ◌≡◌, refl, ◌∙◌, Bool, true, false, ◌||◌, List, [], ◌∷◌, length, leb, if◌then◌else◌, arith,
  Bool-cases, inl, inr,
}
use tiramisu.Base.Int.{ℤ, ◌≤ℤ◌, ltb_ℤ, leb_ℤ}
use tiramisu.Torrstor.Ranges.Merge.{
  Range, merge_from, merge_sorted, merge_range, sort_ranges, covers, covered, StartsFrom, IsSorted,
  Beyond, AllValid, Apart, sort-IsSorted, covered-sort, sort-AllValid,
}

or_assoc : (a b c : Bool) → ((a || b) || c) ≡ (a || (b || c))
or_assoc true b c = refl
or_assoc false b c = refl

module _ {F : Type 0} where
  covers_joined :
      (cur r : Range F) (p : ℤ)
      → cur.start ≤ℤ r.start
      → leb_ℤ r.start cur.end ≡ true
      → covers (if ltb_ℤ cur.end r.end then record cur { end = r.end } else cur) p
        ≡ (covers cur p || covers r p)
  covers_joined cur r p h k = ground arith

  start_joined :
      (cur r : Range F)
      → (if ltb_ℤ cur.end r.end then record cur { end = r.end } else cur).start ≡ cur.start
  start_joined cur r = ground arith

  covered-merge_from :
      (cur : Range F) (rs : List (Range F)) (p : ℤ)
      → StartsFrom cur.start rs
      → IsSorted rs
      → covered (merge_from cur rs) p ≡ (covers cur p || covered rs p)
  unfolding merge_from covered
  covered-merge_from cur [] p h s = refl
  covered-merge_from cur (r ∷ rs) p h s =
      let j = if ltb_ℤ cur.end r.end then record cur { end = r.end } else cur in
      elim (Bool-cases (leb_ℤ r.start cur.end)) [
        | inl e ↦ rw e (
            covered-merge_from j rs p (rw (start_joined cur r) h.1) s.1
            ∙ rw (covers_joined cur r p h.0 e)
                (or_assoc (covers cur p) (covers r p) (covered rs p)))
        | inr e ↦ rw (e, covered-merge_from r rs p s.0 s.1)
      ]

  covered-merge_sorted :
      (rs : List (Range F)) (p : ℤ) → IsSorted rs → covered (merge_sorted rs) p ≡ covered rs p
  unfolding merge_sorted covered
  covered-merge_sorted [] p s = refl
  covered-merge_sorted (r ∷ rs) p s = covered-merge_from r rs p s.0 s.1

  -- Merging keeps the union of the windows: a piece lies in one of the merged windows exactly if it
  -- lies in one of the given ones, for windows in any order, overlapping, nested or empty.
  pub covered-merge_range :
      (rs : List (Range F)) (p : ℤ) → covered (merge_range rs) p ≡ covered rs p
  unfolding merge_range
  covered-merge_range rs p = elim (Bool-cases (leb (length rs) 1)) [
    | inl e ↦ rw e refl
    | inr e ↦ rw e (covered-merge_sorted (sort_ranges rs) p (sort-IsSorted rs) ∙ covered-sort rs p)
  ]

  Beyond-trans : (d e : ℤ) (rs : List (Range F)) → d ≤ℤ e → Beyond e rs → Beyond d rs
  Beyond-trans d e [] h b = tt
  Beyond-trans d e (r ∷ rs) h b = (ground arith, Beyond-trans d e rs h b.1)

  -- What follows a start lies beyond whatever ends before that start.
  Beyond-merge_from :
      (e : ℤ) (cur : Range F) (rs : List (Range F))
      → ltb_ℤ e cur.start ≡ true
      → StartsFrom cur.start rs
      → IsSorted rs
      → Beyond e (merge_from cur rs)
  unfolding merge_from
  Beyond-merge_from e cur [] h k s = (h, tt)
  Beyond-merge_from e cur (r ∷ rs) h k s =
      let j = if ltb_ℤ cur.end r.end then record cur { end = r.end } else cur in
      elim (Bool-cases (leb_ℤ r.start cur.end)) [
        | inl o ↦
            rw o (
              Beyond-merge_from e j rs (rw (start_joined cur r) h) (rw (start_joined cur r) k.1)
                s.1)
        | inr o ↦ rw o (h, Beyond-merge_from e r rs (ground arith) s.0 s.1)
      ]

  merge_from-Apart :
      (cur : Range F) (rs : List (Range F))
      → cur.start ≤ℤ cur.end
      → AllValid rs
      → StartsFrom cur.start rs
      → IsSorted rs
      → Apart (merge_from cur rs)
  unfolding merge_from
  merge_from-Apart cur [] v vs h s = (v, tt, tt)
  merge_from-Apart cur (r ∷ rs) v vs h s =
      let j = if ltb_ℤ cur.end r.end then record cur { end = r.end } else cur in
      elim (Bool-cases (leb_ℤ r.start cur.end)) [
        | inl o ↦ rw o (merge_from-Apart j rs (ground arith) vs.1 (rw (start_joined cur r) h.1) s.1)
        | inr o ↦ rw o (
          v,
          Beyond-merge_from cur.end r rs (ground arith) s.0 s.1,
          merge_from-Apart r rs vs.0 vs.1 s.0 s.1,
        )
      ]

  merge_sorted-Apart : (rs : List (Range F)) → AllValid rs → IsSorted rs → Apart (merge_sorted rs)
  unfolding merge_sorted
  merge_sorted-Apart [] v s = tt
  merge_sorted-Apart (r ∷ rs) v s = merge_from-Apart r rs v.0 v.1 s.0 s.1

  short-Apart : (rs : List (Range F)) → leb (length rs) 1 ≡ true → AllValid rs → Apart rs
  short-Apart [] h v = tt
  short-Apart (r ∷ []) h v = (v.0, tt, tt)
  short-Apart (r ∷ x ∷ xs) h v = absurd (ground arith)

  -- Merging windows that each end no earlier than they start gives windows in ascending order, each
  -- strictly beyond the end of the one in front of it.
  pub merge_range-Apart : (rs : List (Range F)) → AllValid rs → Apart (merge_range rs)
  unfolding merge_range
  merge_range-Apart rs v = elim (Bool-cases (leb (length rs) 1)) [
    | inl e ↦ rw e (short-Apart rs e v)
    | inr e ↦ rw e (merge_sorted-Apart (sort_ranges rs) (sort-AllValid rs v) (sort-IsSorted rs))
  ]
