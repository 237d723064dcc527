-- ===== src/Settings/ReadCache/Agrees.antt =====
-- dbreadcache.go: what a cache holds against what its callers were last told, and the writes.
use tiramisu.Base.{
  ℕ, ◌≡◌, ◌≢◌, refl, ◌∙◌, inl, inr, true, false, Option, none, some, List, [], ◌∷◌, arith,
}
use tiramisu.Base.Eq.{GoString, string_eq, =?_iff, str_eq_iff}
use tiramisu.Base.GoMap.{Map, lookup, insert, delete, lookup-insert, lookup-delete}
use tiramisu.Settings.DataLru.{DataKey, data_key_eq, put_data, remove_data, remove_path, path_left}
use tiramisu.Settings.DataLru.Bytes.{
  IsValid, put_data-IsValid, put_data-some, remove_data-IsValid, remove_data-some, path_left-some,
  remove_path-IsValid,
}
use tiramisu.Settings.ReadCache.{ReadCache}

-- The database, the value of each record that a call last wrote or was last answered with, and the names of
-- each path that a call was last answered with. A removal and a write forget what they may change.
pub record Memo (D : Type 0) : Type 0 where
  pub database : D
  pub told : Map DataKey (List ℕ)
  pub listed : Map GoString (List GoString)

lookup-path_left :
    (p : GoString) (j : DataKey) (d : Map DataKey (List ℕ))
    → j.path ≢ p
    → lookup j (path_left p d) ≡ lookup j d
unfolding lookup path_left
lookup-path_left p j [] n = refl
lookup-path_left p j ((k, v) ∷ d) n =
    ground (arith, n, =?_iff k j, str_eq_iff k.path p, lookup-path_left p j d n)

module _ {D : Type 0} where
  -- What the cache holds was last told; its entries are counted right.
  pub record Agrees (c : ReadCache D) (m : Memo D) : Type 0 where
    pub same : c.database ≡ m.database
    pub lists : c.lists ≡ m.listed
    pub valid : IsValid c.entries
    pub entry :
        (k : DataKey) (v : List ℕ) → lookup k c.entries.order ≡ some v → lookup k m.told ≡ some v

  -- None is a closed cache.
  abbrev pub Refines : ReadCache D → Option (Memo D) → Type 0
  Refines c none = c.closed ≡ true
  Refines c (some m) = (c.closed ≡ false) × Agrees c m

  pub put-Agrees :
      (key : DataKey) (val : List ℕ) (c : ReadCache D) (m : Memo D) (d d' : D)
      (l l' : Map GoString (List GoString))
      → d ≡ d'
      → l ≡ l'
      → Agrees c m
      → Agrees
          (record c { database = d; entries = put_data key val c.entries; lists = l })
          (record { database = d'; told = insert key val m.told; listed = l' })
  put-Agrees key val c m d d' l l' at_ li a = record {
    same = at_;
    lists = li;
    valid = (put_data-IsValid key val c.entries a.valid).0;
    entry = λ k v h. elim (put_data-some key k val v c.entries h) [
      | inl (here, same) ↦ ground (arith, lookup-insert key k val m.told, here, same, =?_iff key k)
      | inr (other, before) ↦
          ground (arith, lookup-insert key k val m.told, other, a.entry k v before, =?_iff key k)
    ];
  }

  pub rem-Agrees :
      (key : DataKey) (c : ReadCache D) (m : Memo D) (d d' : D)
      (l l' : Map GoString (List GoString))
      → d ≡ d'
      → l ≡ l'
      → Agrees c m
      → Agrees
          (record c { database = d; entries = remove_data key c.entries; lists = l })
          (record { database = d'; told = delete key m.told; listed = l' })
  rem-Agrees key c m d d' l l' at_ li a = record {
    same = at_;
    lists = li;
    valid = remove_data-IsValid key c.entries a.valid;
    entry = λ k v h.
        let (other, before) = remove_data-some key k v c.entries h in
        ground (arith, lookup-delete key k m.told, other, a.entry k v before, =?_iff key k);
  }

  pub clear-Agrees :
      (path : GoString) (c : ReadCache D) (m : Memo D) (d d' : D)
      (l l' : Map GoString (List GoString))
      → d ≡ d'
      → l ≡ l'
      → Agrees c m
      → Agrees
          (record c { database = d; entries = remove_path path c.entries; lists = l })
          (record { database = d'; told = path_left path m.told; listed = l' })
  unfolding remove_path
  clear-Agrees path c m d d' l l' at_ li a = record {
    same = at_;
    lists = li;
    valid = remove_path-IsValid path c.entries a.valid;
    entry = λ k v h.
        let (other, before) = path_left-some path k v c.entries.order a.valid.keys h in
        lookup-path_left path k m.told other ∙ a.entry k v before;
  }
