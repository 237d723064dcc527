-- ===== src/Cache/Lru/Reads.antt =====
-- lrucache.go: what can be read after a call.
use tiramisu.Base.{
  ℕ, ◌≡◌, ◌≢◌, ◌↔◌, refl, sym, ◌∙◌, inl, inr, false, none, some, length, ltb, if◌then◌else◌, arith,
  Option-cases,
}
use tiramisu.Base.Eq.{Eq, ◌=?◌, =?_iff, =?_refl, nat_eq}
use tiramisu.Base.GoMap.{delete}
use tiramisu.Cache.Lru.{
  Entry, Lru, Pending, miss, expired, promote, hit, find, remove_element, front, get_read,
  get_write, get, evict, push_front, new_entry, put, delete_key,
}
use tiramisu.Cache.Lru.Linked.{IsValid, find_in, find_in-delete, find-find_in}
use tiramisu.Cache.Lru.Valid.{found, put-IsValid, get_write-IsValid, delete_key-IsValid}

module _ {K V : Type 0} ⦃e : Eq K⦄ where
  -- What the list of the state after `Put` holds for the stored key.
  put-find_in :
      (k : K) (x : V) (size now : ℕ) (c : Lru K V)
      → IsValid c
      → (p : ℕ) × (find_in k (put k x size now c).order ≡ some (p, new_entry k x size now c))
  unfolding put front push_front new_entry find_in
  put-find_in k x size now c v = elim (Option-cases (find k c)) [
    | inl e ↦ ((evict (length c.order) size c).fresh, rw (e, put) (ground (arith, =?_refl k)))
    | inr ((p, entry), e) ↦ (p, rw (e, put, (found k p entry c v e).1) (ground (arith, =?_refl k)))
  ]

  -- Right after `Put` the key is found, with the given value and size and the stamp of the call, and
  -- expires one time to live later.
  pub put-find :
      (k : K) (x : V) (size now : ℕ) (c : Lru K V)
      → IsValid c
      → (p : ℕ) × (find k (put k x size now c) ≡ some (p, new_entry k x size now c))
  put-find k x size now c v =
      let (p, h) = put-find_in k x size now c v in
      (p, find-find_in k (put k x size now c) (put-IsValid k x size now c v) ∙ h)

  removed_other :
      (p : ℕ) (entry : Entry K V) (k j : K) (c : Lru K V)
      → IsValid c
      → find k c ≡ some (p, entry)
      → find_in j (delete p c.order) ≡ (if k =? j then none else find_in j c.order)
  removed_other p entry k j c v h =
      let (at, same) = found k p entry c v h in
      rw (← same) (find_in-delete p entry j c.order v.addresses v.keys at)

  dropped-find_in :
      (k j : K) (c : Lru K V)
      → IsValid c
      → find_in j (delete_key k c).0.order ≡ (if k =? j then none else find_in j c.order)
  unfolding delete_key remove_element
  dropped-find_in k j c v = elim (Option-cases (find k c)) [
    | inl e ↦ rw (e, delete_key) (ground (arith, =?_iff k j, find-find_in k c v))
    | inr ((p, entry), e) ↦ rw (e, delete_key) (removed_other p entry k j c v e)
  ]

  -- After `Delete` the key is gone and every other key is found as before; it reports true exactly if
  -- the key was there.
  pub delete_key-find :
      (k j : K) (c : Lru K V)
      → IsValid c
      → (find j (delete_key k c).0 ≡ (if k =? j then none else find j c))
        × (((delete_key k c).1 ≡ false) ↔ (find k c ≡ none))
  unfolding delete_key
  delete_key-find k j c v = (
    rw (find-find_in j (delete_key k c).0 (delete_key-IsValid k c v), find-find_in j c v)
        (dropped-find_in k j c v),
    (λ h. ground arith, λ h. rw (h, delete_key)),
  )

  -- Dropping an expired key is a `Delete`; promoting keeps every other key.
  expired-find_in :
      (k j : K) (now : ℕ) (c : Lru K V)
      → IsValid c
      → find_in j (get_write k expired now c).0.order ≡ (if k =? j then none else find_in j c.order)
  unfolding get_write delete_key
  expired-find_in k j now c v = ground (arith, dropped-find_in k j c v)

  promoted-find_in :
      (k j : K) (x : V) (now : ℕ) (c : Lru K V)
      → IsValid c
      → k ≢ j
      → find_in j (get_write k (promote x) now c).0.order ≡ find_in j c.order
  unfolding get_write front find_in
  promoted-find_in k j x now c v other = elim (Option-cases (find k c)) [
    | inl e ↦ rw (e, get_write)
    | inr ((p, entry), e) ↦
        rw (e, get_write)
          (ground (arith, =?_iff k j, (found k p entry c v e).1, removed_other p entry k j c v e))
  ]

  read_other :
      (k j : K) (now : ℕ) (c : Lru K V) (todo : Pending V)
      → IsValid c
      → k ≢ j
      → find_in j (get_write k todo now c).0.order ≡ find_in j c.order
  unfolding get_write
  read_other k j now c miss v other = refl
  read_other k j now c (hit x) v other = refl
  read_other k j now c (promote x) v other = promoted-find_in k j x now c v other
  read_other k j now c expired v other = ground (arith, expired-find_in k j now c v, =?_iff k j)

  -- `Get` answers with the value exactly for a key that is there and has not expired, and it removes an
  -- expired one; for any other key nothing changes.
  pub get-find :
      (k j : K) (now : ℕ) (c : Lru K V)
      → IsValid c
      → ((get k now c).1 ≡ elim (find k c) [
        | none ↦ none
        | some (p, entry) ↦ if ltb entry.expires_at now then none else some entry.value
      ])
        × (((get k now c).1 ≡ none) → find k (get k now c).0 ≡ none)
        × (k ≢ j → find j (get k now c).0 ≡ find j c)
  unfolding get get_read get_write
  get-find k j now c v = (
    ground arith,
    λ none_.
        find-find_in k _ (get_write-IsValid k (get_read k now c) now c v)
        ∙ ground (arith, expired-find_in k k now c v, =?_refl k, find-find_in k c v),
    λ other.
        find-find_in j _ (get_write-IsValid k (get_read k now c) now c v)
        ∙ read_other k j now c (get_read k now c) v other
        ∙ sym (find-find_in j c v),
  )

  -- The write half of a `Get` that found an expired entry drops the key whatever it holds by then: a
  -- value that another call has stored in between is lost, and the key is not found.
  pub stale_get_drops :
      (k : K) (x : V) (size now later : ℕ) (c : Lru K V)
      → IsValid c
      → find k (get_write k expired later (put k x size now c)).0 ≡ none
  unfolding get_write
  stale_get_drops k x size now later c v =
      let w = put-IsValid k x size now c v in
      find-find_in k _ (get_write-IsValid k expired later (put k x size now c) w)
      ∙ expired-find_in k k later (put k x size now c) w
      ∙ rw (=?_refl k)
