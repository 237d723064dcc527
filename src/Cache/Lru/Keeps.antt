-- ===== src/Cache/Lru/Keeps.antt =====
-- lrucache.go: the list operations that the cache is made of keep the state well-formed.
use tiramisu.Base.{
  ℕ, zero, suc, ◌+◌, ◌-◌, ◌≤◌, ◌<◌, ◌≡◌, refl, none, some, [], ◌∷◌, ltb, arith, Option-cases,
  Bool-cases, inl, inr,
}
use tiramisu.Base.Eq.{Eq, ◌=?◌, =?_iff, nat_eq}
use tiramisu.Base.GoMap.{
  Map, lookup, delete, Unique, lookup-delete, lookup-insert, delete-Unique, delete_absent,
}
use tiramisu.Cache.Lru.{Entry, Lru, remove_element, front, back, evict, push_front}
use tiramisu.Cache.Lru.Linked.{
  address, Distinct, Below, total, IsValid, address_of_lookup, address-delete, find_in,
  address-find_in, find_in-delete,
}

module _ {K V : Type 0} ⦃e : Eq K⦄ where
  pub total-delete :
      (p : ℕ) (entry : Entry K V) (l : Map ℕ (Entry K V))
      → Unique l
      → lookup p l ≡ some entry
      → total (delete p l) + entry.size ≡ total l
  unfolding lookup delete total
  total-delete p entry [] u h = ground arith
  total-delete p entry ((q, f) ∷ l) u h =
      ground (arith, =?_iff q p, delete_absent p l, total-delete p entry l)

  Below-delete : (n p : ℕ) (l : Map ℕ (Entry K V)) → Below n l → Below n (delete p l)
  unfolding delete
  Below-delete n p [] b = tt
  Below-delete n p ((q, f) ∷ l) b = elim (Bool-cases (q =? p)) [
    | inl same ↦ rw same (Below-delete n p l b.1)
    | inr other ↦ rw other (b.0, Below-delete n p l b.1)
  ]

  Below-lookup :
      (n p : ℕ) (entry : Entry K V) (l : Map ℕ (Entry K V))
      → Below n l
      → lookup p l ≡ some entry
      → p < n
  unfolding lookup
  Below-lookup n p entry [] b h = absurd (ground arith)
  Below-lookup n p entry ((q, f) ∷ l) b h = ground (arith, =?_iff q p, Below-lookup n p entry l)

  lookup_unallocated : (n : ℕ) (l : Map ℕ (Entry K V)) → Below n l → lookup n l ≡ none
  unfolding lookup
  lookup_unallocated n [] b = refl
  lookup_unallocated n ((q, f) ∷ l) b = ground (arith, =?_iff q n, lookup_unallocated n l)

  Below-mono : (n m : ℕ) (l : Map ℕ (Entry K V)) → n ≤ m → Below n l → Below m l
  Below-mono n m [] h b = tt
  Below-mono n m ((q, f) ∷ l) h b = (omega arith, Below-mono n m l h b.1)

  pub Distinct-delete :
      (p : ℕ) (entry : Entry K V) (l : Map ℕ (Entry K V))
      → Unique l
      → Distinct l
      → lookup p l ≡ some entry
      → Distinct (delete p l)
  unfolding lookup delete
  Distinct-delete p entry [] u d h = tt
  Distinct-delete p entry ((q, f) ∷ l) u d h = elim (Bool-cases (q =? p)) [
    | inl same ↦ rw (same, delete_absent p l (ground (arith, =?_iff q p))) d.1
    | inr other ↦ rw other (
      ground (arith, address-delete p entry f.key l),
      Distinct-delete p entry l u.1 d.1 (ground arith),
    )
  ]

  pub remove_element-IsValid :
      (p : ℕ) (entry : Entry K V) (c : Lru K V)
      → lookup p c.order ≡ some entry
      → IsValid c
      → IsValid (remove_element p entry c)
  unfolding remove_element
  remove_element-IsValid p entry c h v = record {
    linked = λ k. ground (
      arith,
      v.linked k,
      lookup-delete entry.key k c.items,
      address-delete p entry k c.order v.addresses v.keys h,
    );
    addresses = delete-Unique p c.order v.addresses;
    keys = Distinct-delete p entry c.order v.addresses v.keys h;
    allocated = Below-delete c.fresh p c.order v.allocated;
    counted = ground (arith, v.counted, total-delete p entry c.order v.addresses h);
  }

  -- A touched element keeps its address and its key; its size may change with the running size.
  pub front-IsValid :
      (p : ℕ) (entry entry' : Entry K V) (size : ℕ) (c : Lru K V)
      → lookup p c.order ≡ some entry
      → entry'.key ≡ entry.key
      → size ≡ c.current_size - entry.size + entry'.size
      → IsValid c
      → IsValid (front p entry' (record c { current_size = size }))
  unfolding front address total
  front-IsValid p entry entry' size c h same counts v = record {
    linked = λ k. ground (
      arith,
      v.linked k,
      =?_iff entry.key k,
      address_of_lookup p entry c.order v.keys h,
      address-delete p entry k c.order v.addresses v.keys h,
    );
    addresses = (
      ground (arith, lookup-delete p p c.order, =?_iff p p),
      delete-Unique p c.order v.addresses,
    );
    keys = (
      ground (
        arith,
        =?_iff entry.key entry.key,
        address-delete p entry entry'.key c.order v.addresses v.keys h,
      ),
      Distinct-delete p entry c.order v.addresses v.keys h,
    );
    allocated = (
      Below-lookup c.fresh p entry c.order v.allocated h,
      Below-delete c.fresh p c.order v.allocated,
    );
    counted = ground (arith, v.counted, total-delete p entry c.order v.addresses h);
  }

  removed_absent :
      (p : ℕ) (entry : Entry K V) (k : K) (c : Lru K V)
      → IsValid c
      → lookup p c.order ≡ some entry
      → find_in k c.order ≡ none
      → find_in k (remove_element p entry c).order ≡ none
  unfolding remove_element
  removed_absent p entry k c v h none_ =
      ground (arith, find_in-delete p entry k c.order v.addresses v.keys h)

  pub push_front-IsValid :
      (entry : Entry K V) (c : Lru K V)
      → find_in entry.key c.order ≡ none
      → IsValid c
      → IsValid (push_front entry c)
  unfolding push_front address total
  push_front-IsValid entry c absent v = record {
    linked = λ k. ground (arith, v.linked k, lookup-insert entry.key k c.fresh c.items);
    addresses = (lookup_unallocated c.fresh c.order v.allocated, v.addresses);
    keys = (ground (arith, address-find_in entry.key c.order), v.keys);
    allocated = (omega arith, Below-mono c.fresh (c.fresh + 1) c.order (omega arith) v.allocated);
    counted = ground (arith, v.counted);
  }

  pub back-lookup :
      (p : ℕ) (entry : Entry K V) (l : Map ℕ (Entry K V))
      → Unique l
      → back l ≡ some (p, entry)
      → lookup p l ≡ some entry
  unfolding back lookup
  back-lookup p entry [] u h = ground arith
  back-lookup p entry ((q, f) ∷ []) u h = ground (arith, =?_iff q p)
  back-lookup p entry ((q, f) ∷ x ∷ l) u h =
      ground (arith, =?_iff q p, back-lookup p entry (x ∷ l) u.1)

  pub evict-IsValid : (fuel size : ℕ) (c : Lru K V) → IsValid c → IsValid (evict fuel size c)
  unfolding evict
  evict-IsValid zero size c v = v
  evict-IsValid (suc fuel) size c v = elim (Option-cases (back c.order)) [
    | inl e ↦ rw (e, evict) v
    | inr ((p, entry), e) ↦ elim (Bool-cases (ltb c.capacity (c.current_size + size))) [
      | inl full ↦
          rw (e, full, evict)
            (evict-IsValid fuel size (remove_element p entry c)
              (remove_element-IsValid p entry c (back-lookup p entry c.order v.addresses e) v))
      | inr fits ↦ rw (e, fits, evict) v
    ]
  ]

  pub evict_absent :
      (fuel size : ℕ) (k : K) (c : Lru K V)
      → IsValid c
      → find_in k c.order ≡ none
      → find_in k (evict fuel size c).order ≡ none
  unfolding evict
  evict_absent zero size k c v h = h
  evict_absent (suc fuel) size k c v h = elim (Option-cases (back c.order)) [
    | inl e ↦ rw (e, evict) h
    | inr ((p, entry), e) ↦ elim (Bool-cases (ltb c.capacity (c.current_size + size))) [
      | inl full ↦
          let found = back-lookup p entry c.order v.addresses e in
          rw (e, full, evict)
            (evict_absent fuel size k (remove_element p entry c)
              (remove_element-IsValid p entry c found v) (removed_absent p entry k c v found h))
      | inr fits ↦ rw (e, fits, evict) h
    ]
  ]
