-- ===== src/Cache/Lru/Valid.antt =====
-- lrucache.go: every operation keeps the state well-formed.
use tiramisu.Base.{
  ℕ, ◌+◌, ◌-◌, ◌≡◌, refl, sym, ◌∙◌, none, some, List, [], ◌∷◌, length, ltb, arith, Option-cases,
  Bool-cases, inl, inr,
}
use tiramisu.Base.Eq.{Eq, =?_iff, nat_eq}
use tiramisu.Base.GoMap.{Map, lookup, delete, Unique, lookup-delete}
use tiramisu.Cache.Lru.{
  Entry, Lru, Pending, miss, expired, promote, hit, find, new_simple_lru_cache, remove_element,
  get_write, evict, new_entry, put, delete_key, expired_elements, remove_elements, cleanup_expired,
}
use tiramisu.Cache.Lru.Linked.{address, total, IsValid, find_in-some, find-find_in}
use tiramisu.Cache.Lru.Keeps.{
  total-delete, remove_element-IsValid, front-IsValid, push_front-IsValid, evict-IsValid,
  evict_absent,
}

module _ {K V : Type 0} ⦃e : Eq K⦄ where
  pub new-IsValid : (capacity ttl : ℕ) → IsValid (new_simple_lru_cache {K = K} {V = V} capacity ttl)
  unfolding new_simple_lru_cache lookup address total
  new-IsValid capacity ttl = record {
    linked = λ k. refl;
    addresses = tt;
    keys = tt;
    allocated = tt;
    counted = refl;
  }

  pub found :
      (k : K) (p : ℕ) (entry : Entry K V) (c : Lru K V)
      → IsValid c
      → find k c ≡ some (p, entry)
      → (lookup p c.order ≡ some entry) × (entry.key ≡ k)
  found k p entry c v h = find_in-some k p entry c.order v.addresses (sym (find-find_in k c v) ∙ h)

  pub get_write-IsValid :
      (k : K) (todo : Pending V) (now : ℕ) (c : Lru K V)
      → IsValid c
      → IsValid (get_write k todo now c).0
  unfolding get_write
  get_write-IsValid k miss now c v = v
  get_write-IsValid k (hit x) now c v = v
  get_write-IsValid k expired now c v = elim (Option-cases (find k c)) [
    | inl e ↦ rw (e, get_write) v
    | inr ((p, entry), e) ↦
        rw (e, get_write) (remove_element-IsValid p entry c (found k p entry c v e).0 v)
  ]
  get_write-IsValid k (promote x) now c v = elim (Option-cases (find k c)) [
    | inl e ↦ rw (e, get_write) v
    | inr ((p, entry), e) ↦
        rw (e, get_write)
          (front-IsValid p entry (record entry { last_promoted = now }) c.current_size c
            (found k p entry c v e).0 refl
            (omega (
              arith,
              v.counted,
              total-delete p entry c.order v.addresses (found k p entry c v e).0,
            ))
            v)
  ]

  pub put-IsValid :
      (k : K) (x : V) (size now : ℕ) (c : Lru K V) → IsValid c → IsValid (put k x size now c)
  unfolding put new_entry
  put-IsValid k x size now c v = elim (Option-cases (find k c)) [
    | inl e ↦
        rw (e, put)
          (push_front-IsValid (new_entry k x size now c) (evict (length c.order) size c)
            (evict_absent (length c.order) size k c v (sym (find-find_in k c v) ∙ e))
            (evict-IsValid (length c.order) size c v))
    | inr ((p, entry), e) ↦
        rw (e, put)
          (front-IsValid p entry _ (c.current_size - entry.size + size) c (found k p entry c v e).0
            refl refl v)
  ]

  pub delete_key-IsValid : (k : K) (c : Lru K V) → IsValid c → IsValid (delete_key k c).0
  unfolding delete_key
  delete_key-IsValid k c v = elim (Option-cases (find k c)) [
    | inl e ↦ rw (e, delete_key) v
    | inr ((p, entry), e) ↦
        rw (e, delete_key) (remove_element-IsValid p entry c (found k p entry c v e).0 v)
  ]

  -- Elements of the list, each once, which are to be removed in turn.
  abbrev Present : List (ℕ × Entry K V) → Map ℕ (Entry K V) → Type 0
  Present [] order = Unit
  Present ((p, entry) ∷ l) order =
      (lookup p order ≡ some entry) × (lookup p l ≡ none) × Present l order

  Present-delete :
      (p : ℕ) (l : List (ℕ × Entry K V)) (order : Map ℕ (Entry K V))
      → lookup p l ≡ none
      → Present l order
      → Present l (delete p order)
  unfolding lookup
  Present-delete p [] order h s = tt
  Present-delete p ((q, f) ∷ l) order h s = (
    ground (arith, lookup-delete p q order, =?_iff p q, =?_iff q p),
    s.1,
    Present-delete p l order (ground arith) s.2,
  )

  Present-push :
      (p : ℕ) (entry : Entry K V) (l : List (ℕ × Entry K V)) (order : Map ℕ (Entry K V))
      → lookup p l ≡ none
      → Present l order
      → Present l ((p, entry) ∷ order)
  unfolding lookup
  Present-push p entry [] order h s = tt
  Present-push p entry ((q, f) ∷ l) order h s =
      (ground (arith, =?_iff p q, =?_iff q p), s.1, Present-push p entry l order (ground arith) s.2)

  lookup-expired :
      (p now : ℕ) (order : Map ℕ (Entry K V))
      → lookup p order ≡ none
      → lookup p (expired_elements now order) ≡ none
  unfolding lookup expired_elements
  lookup-expired p now [] h = refl
  lookup-expired p now ((q, f) ∷ order) h = ground (arith, lookup-expired p now order)

  expired-Present :
      (now : ℕ) (order : Map ℕ (Entry K V))
      → Unique order
      → Present (expired_elements now order) order
  unfolding expired_elements lookup
  expired-Present now [] u = tt
  expired-Present now ((q, f) ∷ order) u =
      let absent = lookup-expired q now order u.0 in
      let rest =
        Present-push q f (expired_elements now order) order absent
          (expired-Present now order u.1) in
      elim (Bool-cases (ltb f.expires_at now)) [
        | inl old ↦ rw old (ground (arith, =?_iff q q), absent, rest)
        | inr live ↦ rw live rest
      ]

  remove_elements-IsValid :
      (l : List (ℕ × Entry K V)) (c : Lru K V) (removed : ℕ)
      → Present l c.order
      → IsValid c
      → IsValid (remove_elements l c removed).0
  unfolding remove_elements remove_element
  remove_elements-IsValid [] c removed s v = v
  remove_elements-IsValid ((p, entry) ∷ l) c removed s v =
      remove_elements-IsValid l (remove_element p entry c) (removed + 1)
        (Present-delete p l c.order s.1 s.2) (remove_element-IsValid p entry c s.0 v)

  pub cleanup_expired-IsValid :
      (now : ℕ) (c : Lru K V) → IsValid c → IsValid (cleanup_expired now c).0
  unfolding cleanup_expired
  cleanup_expired-IsValid now c v =
      remove_elements-IsValid (expired_elements now c.order) c 0
        (expired-Present now c.order v.addresses) v

-- The calls on a shard as the lock orders them. The write half of a `Get` runs with what any earlier
-- read half found, so other calls may come in between.
pub data Step {K V : Type 0} ⦃e : Eq K⦄ : Lru K V → Lru K V → Type 0 where
  got : (c : Lru K V) (k : K) (todo : Pending V) (now : ℕ) → Step c (get_write k todo now c).0
  stored : (c : Lru K V) (k : K) (x : V) (size now : ℕ) → Step c (put k x size now c)
  dropped : (c : Lru K V) (k : K) → Step c (delete_key k c).0
  cleaned : (c : Lru K V) (now : ℕ) → Step c (cleanup_expired now c).0

pub data Reach {K V : Type 0} ⦃e : Eq K⦄ (c : Lru K V) : Lru K V → Type 0 where
  here : Reach c c
  next : {d f : Lru K V} → Reach c d → Step d f → Reach c f

Step-IsValid : {K V : Type 0} ⦃e : Eq K⦄ {c d : Lru K V} → Step c d → IsValid c → IsValid d
Step-IsValid (got c k todo now) v = get_write-IsValid k todo now c v
Step-IsValid (stored c k x size now) v = put-IsValid k x size now c v
Step-IsValid (dropped c k) v = delete_key-IsValid k c v
Step-IsValid (cleaned c now) v = cleanup_expired-IsValid now c v

Reach-keeps : {K V : Type 0} ⦃e : Eq K⦄ {c d : Lru K V} → IsValid c → Reach c d → IsValid d
Reach-keeps v here = v
Reach-keeps v (next r st) = Step-IsValid st (Reach-keeps v r)

-- From a new shard every sequence of calls, with the halves of a `Get` apart, leads to a state where
-- the map leads to exactly the elements of the list, no key and no address stands there twice, and
-- the running size is the sum of the sizes.
pub Reach-IsValid :
    {K V : Type 0} ⦃e : Eq K⦄ (capacity ttl : ℕ) {d : Lru K V}
    → Reach (new_simple_lru_cache capacity ttl) d
    → IsValid d
Reach-IsValid capacity ttl r = Reach-keeps (new-IsValid capacity ttl) r
