-- ===== src/Cache/Lru/Room.antt =====
-- lrucache.go: the loop of `Put` that makes room.
use tiramisu.Base.{
  ℕ, zero, suc, ◌+◌, ◌≤◌, ◌<◌, ◌≡◌, refl, ap, sym, ◌∙◌, ◌⊎◌, inl, inr, true, false, none, some,
  List, [], ◌∷◌, ◌++◌, length, ltb, arith, Option-cases, Bool-cases,
}
use mathlib.Core.List.{append_assoc, append-nil}
use tiramisu.Base.Eq.{Eq, ◌=?◌, =?_iff, nat_eq}
use tiramisu.Base.GoMap.{Map, lookup, delete, Unique, length-delete}
use tiramisu.Cache.Lru.{Entry, Lru, find, remove_element, back, evict, push_front, new_entry, put}
use tiramisu.Cache.Lru.Linked.{total, IsValid}
use tiramisu.Cache.Lru.Keeps.{remove_element-IsValid, back-lookup, total-delete}

module _ {K V : Type 0} ⦃e : Eq K⦄ where
  back-split :
      (p : ℕ) (entry : Entry K V) (l : Map ℕ (Entry K V))
      → Unique l
      → back l ≡ some (p, entry)
      → l ≡ delete p l ++ (p, entry) ∷ []
  unfolding back delete lookup
  back-split p entry [] u h = ground arith
  back-split p entry ((q, f) ∷ []) u h = ground (arith, =?_iff q p)
  back-split p entry ((q, f) ∷ x ∷ l) u h =
      let at = back-lookup p entry (x ∷ l) u.1 h in
      let differs : (q =? p) ≡ false = ground (arith, =?_iff q p) in
      rw differs (ap (◌∷◌ (q, f)) (back-split p entry (x ∷ l) u.1 h))

  back-none : (l : Map ℕ (Entry K V)) → back l ≡ none → l ≡ []
  unfolding back
  back-none [] h = refl
  back-none ((q, f) ∷ []) h = ground arith
  back-none ((q, f) ∷ x ∷ l) h = absurd (ground (arith, back-none (x ∷ l)))

  -- The elements that went: none, or the one next to what is left would not have fitted beside it and
  -- the new entry.
  abbrev pub Needed : Lru K V → ℕ → ℕ → List (ℕ × Entry K V) → Type 0
  Needed c size kept [] = Unit
  Needed c size kept ((p, entry) ∷ gone) = c.capacity < kept + entry.size + size

  abbrev Evicted : ℕ → Lru K V → Lru K V → Type 0
  Evicted size c d =
      (gone : List (ℕ × Entry K V)) × (c.order ≡ d.order ++ gone)
      × Needed c size (total d.order) gone

  evict_step :
      (p : ℕ) (entry : Entry K V) (size : ℕ) (c d : Lru K V)
      → IsValid c
      → back c.order ≡ some (p, entry)
      → ltb c.capacity (c.current_size + size) ≡ true
      → Evicted size (remove_element p entry c) d
      → Evicted size c d
  unfolding remove_element
  evict_step p entry size c d v h full ([], split, needed) =
      let at = back-lookup p entry c.order v.addresses h in
      (
        (p, entry) ∷ [],
        back-split p entry c.order v.addresses h
            ∙ ap (λ l. l ++ (p, entry) ∷ []) (split ∙ append-nil d.order),
        ground (
          arith,
          v.counted,
          total-delete p entry c.order v.addresses at,
          ap total (split ∙ append-nil d.order),
        ),
      )
  evict_step p entry size c d v h full ((q, f) ∷ gone, split, needed) = (
    (q, f) ∷ (gone ++ (p, entry) ∷ []),
    back-split p entry c.order v.addresses h
        ∙ ap (λ l. l ++ (p, entry) ∷ []) split
        ∙ append_assoc d.order ((q, f) ∷ gone) ((p, entry) ∷ []),
    needed,
  )

  evict-Evicted : (fuel size : ℕ) (c : Lru K V) → IsValid c → Evicted size c (evict fuel size c)
  unfolding evict
  evict-Evicted zero size c v = ([], sym (append-nil c.order), tt)
  evict-Evicted (suc fuel) size c v = elim (Option-cases (back c.order)) [
    | inl e ↦ rw (e, evict) ([], sym (append-nil c.order), tt)
    | inr ((p, entry), e) ↦ elim (Bool-cases (ltb c.capacity (c.current_size + size))) [
      | inl full ↦
          let at = back-lookup p entry c.order v.addresses e in
          rw (e, full, evict)
            (evict_step p entry size c (evict fuel size (remove_element p entry c)) v e full (
              evict-Evicted fuel size (remove_element p entry c)
                (remove_element-IsValid p entry c at v)))
      | inr fits ↦ rw (e, fits, evict) ([], sym (append-nil c.order), tt)
    ]
  ]

  removed_shorter :
      (p n : ℕ) (entry : Entry K V) (c : Lru K V)
      → lookup p c.order ≡ some entry
      → IsValid c
      → length c.order ≤ suc n
      → length (remove_element p entry c).order ≤ n
  unfolding remove_element
  removed_shorter p n entry c at v h = omega (arith, length-delete p entry c.order v.addresses at)

  -- With fuel for each element the loop ends because the entry fits or nothing is left.
  evict_fits :
      (fuel size : ℕ) (c : Lru K V)
      → IsValid c
      → length c.order ≤ fuel
      → ((evict fuel size c).current_size + size ≤ c.capacity) ⊎ ((evict fuel size c).order ≡ [])
  unfolding evict
  evict_fits zero size c v h = inr (nil_of_length c.order h)
    where
      nil_of_length : (l : Map ℕ (Entry K V)) → length l ≤ 0 → l ≡ []
      nil_of_length [] h = refl
      nil_of_length (x ∷ l) h = absurd (omega arith)
  evict_fits (suc fuel) size c v h = elim (Option-cases (back c.order)) [
    | inl e ↦ rw (e, evict) (inr (back-none c.order e))
    | inr ((p, entry), e) ↦ elim (Bool-cases (ltb c.capacity (c.current_size + size))) [
      | inl full ↦
          let at = back-lookup p entry c.order v.addresses e in
          rw (e, full, evict)
            (evict_fits fuel size (remove_element p entry c) (remove_element-IsValid p entry c at v)
              (removed_shorter p fuel entry c at v h))
      | inr fits ↦ rw (e, fits, evict) (inl (ground arith))
    ]
  ]

  -- `Put` of a new key puts it in front of what it keeps, which is a front part of the list: only least
  -- recently used elements go. The last one that went, the one
  -- next to what is kept, would not have fitted beside that and the new entry. Then the sizes sum up to at most the capacity, or the new entry stands alone.
  pub put_makes_room :
      (k : K) (x : V) (size now : ℕ) (c : Lru K V)
      → IsValid c
      → find k c ≡ none
      → (p : ℕ) × (kept : List (ℕ × Entry K V)) × (gone : List (ℕ × Entry K V)) × (c.order
          ≡ kept ++ gone)
        × ((put k x size now c).order ≡ (p, new_entry k x size now c) ∷ kept)
        × Needed c size (total kept) gone
        × (((put k x size now c).current_size ≤ c.capacity) ⊎ (kept ≡ []))
  unfolding put push_front
  put_makes_room k x size now c v h =
      let n = length c.order in
      let d = evict n size c in
      let (gone, split, needed) = evict-Evicted n size c v in
      (
        d.fresh,
        d.order,
        gone,
        split,
        rw (h, put),
        needed,
        rw (h, put) (evict_fits n size c v (omega arith)),
      )
