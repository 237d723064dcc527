-- ===== src/Syncer/StateStore/Pruning.antt =====
-- store.go: what a reader can tell of a store that was saved and opened again.
use tiramisu.Base.{
  ℕ, ◌+◌, ◌≤◌, ◌<◌, ◌≡◌, refl, inl, inr, true, false, Option, none, some, [], ◌∷◌, arith,
  Bool-cases, Option-cases,
}
use tiramisu.Base.Eq.{GoString, string_eq, =?_iff}
use tiramisu.Base.GoMap.{Map, lookup, Unique, lookup-insert, lookup-delete}
use tiramisu.Syncer.StateStore.{
  Stamped, Store, loads, load_entries, open_store, get_value, set_value, set_permanent,
  delete_value, saved, ttl_seconds,
}

module _ {V : Type 0} where
  load_entries_absent :
      (ttl now : ℕ) (k : GoString) (m : Map GoString (Stamped V))
      → lookup k m ≡ none
      → lookup k (load_entries ttl now m) ≡ none
  unfolding lookup load_entries
  load_entries_absent ttl now k [] h = refl
  load_entries_absent ttl now k ((j, e) ∷ m) h = ground (arith, load_entries_absent ttl now k m)

  load_entries_present :
      (ttl now : ℕ) (k : GoString) (e : Stamped V) (m : Map GoString (Stamped V))
      → Unique m
      → lookup k m ≡ some e
      → (loads ttl now e ≡ true → lookup k (load_entries ttl now m) ≡ some e)
        × (loads ttl now e ≡ false → lookup k (load_entries ttl now m) ≡ none)
  unfolding lookup load_entries
  load_entries_present ttl now k e [] u h = (λ l. ground arith, λ l. refl)
  load_entries_present ttl now k e ((j, f) ∷ m) u h =
      let absent = load_entries_absent ttl now k m in
      let present = load_entries_present ttl now k e m u.1 in
      (
        λ l. ground (arith, =?_iff j k, absent, present),
        λ l. ground (arith, =?_iff j k, absent, present),
      )

  -- The keys and the values of a map are such that the JSON form holds them.
  abbrev pub AllFit : (GoString → V → Type 0) → Map GoString (Stamped V) → Type 0
  AllFit fits [] = Unit
  AllFit fits ((k, e) ∷ m) = fits k e.value × AllFit fits m

  -- What encoding/json says of such a map: it is encoded, and the bytes are decoded to a map with the same
  -- entries, in whatever order.
  abbrev pub ReadsBack :
      {Bytes : Type 0}
      → (Map GoString (Stamped V) → Option Bytes)
      → (Bytes → Option (Map GoString (Stamped V)))
      → (GoString → V → Type 0)
      → Type 0
  ReadsBack {Bytes} marshal unmarshal fits =
      (m : Map GoString (Stamped V))
      → Unique m
      → AllFit fits m
      → (file : Bytes) × (m' : Map GoString (Stamped V)) × (marshal m ≡ some file)
        × (unmarshal file ≡ some m')
        × Unique m'
        × ((k : GoString) → lookup k m' ≡ lookup k m)

  reopened :
      (s : Store V) (m : Map GoString (Stamped V)) (k : GoString) (now later : ℕ)
      → Unique m
      → lookup k m ≡ lookup k s.entries
      → now ≤ later
      → get_value k later (record s { entries = load_entries s.ttl now m }) ≡ get_value k later s
  unfolding get_value loads
  reopened s m k now later u same h = elim (Option-cases (lookup k m)) [
    | inl e ↦ ground (arith, same, load_entries_absent s.ttl now k m e)
    | inr (entry, e) ↦
        let present = load_entries_present s.ttl now k entry m u e in
        elim (Bool-cases (loads s.ttl now entry)) [
          | inl kept ↦ ground (arith, same, present.0 kept)
          | inr pruned ↦ ground (arith, same, present.1 pruned)
        ]
  ]

  -- If the JSON form of a map whose keys and values it can hold is read back as it was written, then a store
  -- with such keys and values is encoded, and opened again from the bytes with its time to live it
  -- answers every `Get` from then on as it would have: what `Open` prunes, no later reader could have
  -- seen.
  pub get_value-open_store :
      {Bytes : Type 0} (marshal : Map GoString (Stamped V) → Option Bytes)
      (unmarshal : Bytes → Option (Map GoString (Stamped V))) (fits : GoString → V → Type 0)
      → ReadsBack marshal unmarshal fits
      → (s : Store V) (k : GoString) (now later : ℕ) → Unique s.entries
      → AllFit fits s.entries
      → now ≤ later
      → (file : Bytes) × (saved marshal s ≡ some file)
        × (get_value k later (open_store unmarshal s.ttl now (some file)) ≡ get_value k later s)
  unfolding open_store saved
  get_value-open_store marshal unmarshal fits law s k now later u fit h =
      let (file, m, written, decoded, unique, same) = law s.entries u fit in
      (file, written, rw (decoded, open_store) (reopened s m k now later unique (same k) h))

  -- A value set at a positive time is read back until the whole seconds of the time to live have passed,
  -- and not after; with no time to live, and where it was set as permanent, it is read back at any time.
  pub get_value-set :
      (s : Store V) (k : GoString) (v : V) (now later : ℕ)
      → 0 < now
      → ((later < now + ttl_seconds s.ttl) → get_value k later (set_value k v now s) ≡ some v)
        × (0 < s.ttl
            → now + ttl_seconds s.ttl ≤ later
            → get_value k later (set_value k v now s) ≡ none)
        × (s.ttl ≡ 0 → get_value k later (set_value k v now s) ≡ some v)
        × (get_value k later (set_permanent k v s) ≡ some v)
        × (get_value k later (delete_value k s) ≡ none)
  unfolding get_value set_value set_permanent delete_value
  get_value-set s k v now later h =
      let e : Stamped V = record { value = v; ts = now } in
      let f : Stamped V = record { value = v; ts = 0 } in
      let at = lookup-insert k k e s.entries in
      let self = =?_iff k k in
      (
        λ l. ground (arith, at, self),
        λ p l. ground (arith, at, self),
        λ z. ground (arith, at, self),
        ground (arith, lookup-insert k k f s.entries, self),
        ground (arith, lookup-delete k k s.entries, self),
      )
