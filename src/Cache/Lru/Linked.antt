-- ===== src/Cache/Lru/Linked.antt =====
-- lrucache.go: the agreement of the map and the list.
use tiramisu.Base.{
  ℕ, ◌+◌, ◌<◌, ◌≡◌, refl, Option, none, some, [], ◌∷◌, if◌then◌else◌, arith, Option-cases, inl, inr,
}
use tiramisu.Base.Eq.{Eq, ◌=?◌, =?_iff, nat_eq}
use tiramisu.Base.GoMap.{Map, lookup, delete, Unique, delete_absent}
use tiramisu.Cache.Lru.{Entry, Lru, find}

module _ {K V : Type 0} ⦃e : Eq K⦄ where
  -- The address of the element for a key, read off the list.
  unfoldable pub address : K → Map ℕ (Entry K V) → Option ℕ
  address k [] = none
  address k ((p, entry) ∷ l) = if entry.key =? k then some p else address k l

  -- No two elements hold the same key.
  abbrev pub Distinct : Map ℕ (Entry K V) → Type 0
  Distinct [] = Unit
  Distinct ((p, entry) ∷ l) = (address entry.key l ≡ none) × Distinct l

  abbrev pub Below : ℕ → Map ℕ (Entry K V) → Type 0
  Below n [] = Unit
  Below n ((p, entry) ∷ l) = (p < n) × Below n l

  unfoldable pub total : Map ℕ (Entry K V) → ℕ
  total [] = 0
  total ((p, entry) ∷ l) = entry.size + total l

  -- The well-formed states: the map leads to the list's elements and nowhere else, addresses and keys
  -- are distinct, and the running size is the sum of the sizes.
  pub record IsValid (c : Lru K V) : Type 0 where
    pub linked : (k : K) → lookup k c.items ≡ address k c.order
    pub addresses : Unique c.order
    pub keys : Distinct c.order
    pub allocated : Below c.fresh c.order
    pub counted : c.current_size ≡ total c.order

  pub address_of_lookup :
      (p : ℕ) (entry : Entry K V) (l : Map ℕ (Entry K V))
      → Distinct l
      → lookup p l ≡ some entry
      → address entry.key l ≡ some p
  unfolding lookup address
  address_of_lookup p entry [] d h = ground arith
  address_of_lookup p entry ((q, f) ∷ l) d h =
      ground (arith, =?_iff f.key entry.key, =?_iff q p, address_of_lookup p entry l)

  pub address-delete :
      (p : ℕ) (entry : Entry K V) (k : K) (l : Map ℕ (Entry K V))
      → Unique l
      → Distinct l
      → lookup p l ≡ some entry
      → address k (delete p l) ≡ (if entry.key =? k then none else address k l)
  unfolding lookup address delete
  address-delete p entry k [] u d h = ground arith
  address-delete p entry k ((q, f) ∷ l) u d h = ground (
    arith,
    =?_iff f.key k,
    =?_iff entry.key k,
    =?_iff f.key entry.key,
    =?_iff q p,
    delete_absent p l,
    address_of_lookup p entry l,
    address-delete p entry k l,
  )

  -- The element for a key, read off the list.
  unfoldable pub find_in : K → Map ℕ (Entry K V) → Option (ℕ × Entry K V)
  find_in k [] = none
  find_in k ((p, entry) ∷ l) = if entry.key =? k then some (p, entry) else find_in k l

  pub find_in-some :
      (k : K) (p : ℕ) (entry : Entry K V) (l : Map ℕ (Entry K V))
      → Unique l
      → find_in k l ≡ some (p, entry)
      → (lookup p l ≡ some entry) × (entry.key ≡ k)
  unfolding lookup find_in
  find_in-some k p entry [] u h = (ground arith, ground arith)
  find_in-some k p entry ((q, f) ∷ l) u h = (
    ground (arith, =?_iff f.key k, =?_iff q p, find_in-some k p entry l),
    ground (arith, =?_iff f.key k, =?_iff q p, find_in-some k p entry l),
  )

  pub address-find_in :
      (k : K) (l : Map ℕ (Entry K V))
      → address k l ≡ elim (find_in k l) [ none ↦ none | some (p, _) ↦ some p ]
  unfolding address find_in
  address-find_in k [] = refl
  address-find_in k ((q, f) ∷ l) = ground (arith, address-find_in k l)

  -- In a well-formed state the lookup through the map finds what the list holds for the key.
  pub find-find_in : (k : K) (c : Lru K V) → IsValid c → find k c ≡ find_in k c.order
  unfolding find
  find-find_in k c v = elim (Option-cases (find_in k c.order)) [
    | inl e ↦ ground (arith, v.linked k, address-find_in k c.order)
    | inr ((p, entry), e) ↦
        ground (
          arith,
          v.linked k,
          address-find_in k c.order,
          find_in-some k p entry c.order v.addresses e,
        )
  ]

  pub find_in-delete :
      (p : ℕ) (entry : Entry K V) (k : K) (l : Map ℕ (Entry K V))
      → Unique l
      → Distinct l
      → lookup p l ≡ some entry
      → find_in k (delete p l) ≡ (if entry.key =? k then none else find_in k l)
  unfolding lookup find_in delete
  find_in-delete p entry k [] u d h = ground arith
  find_in-delete p entry k ((q, f) ∷ l) u d h = ground (
    arith,
    =?_iff f.key k,
    =?_iff entry.key k,
    =?_iff f.key entry.key,
    =?_iff q p,
    delete_absent p l,
    address_of_lookup p entry l,
    address-find_in k l,
    find_in-delete p entry k l,
  )
