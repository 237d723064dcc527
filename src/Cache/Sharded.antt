-- ===== src/Cache/Sharded.antt =====
-- internal/cache/lrucache.go: `LRUCache`, thirty-two shards behind a hash of the key. The hash
-- (xxhash) is a parameter: a function from keys to numbers.
use tiramisu.Base.{
  ℕ, zero, suc, ◌+◌, ◌/◌, ◌%◌, ◌≤◌, ◌<◌, ◌≡◌, ◌≢◌, refl, ◌∙◌, Bool, Option, none, some, List, [],
  ◌∷◌, length, set, get_elem?, replicate, if◌then◌else◌, ◌==◌, arith, get_elem?-set_self,
  get_elem?-set_ne,
}
use mathlib.Core.Path.{subst}
use mathlib.Core.Option.{some-injective}
use tiramisu.Base.Eq.{Eq}
use tiramisu.Cache.Lru.{
  Entry, Lru, find, new_simple_lru_cache, get, put, new_entry, delete_key, cleanup_expired, len,
}
use tiramisu.Cache.Lru.Linked.{IsValid}
use tiramisu.Cache.Lru.Valid.{put-IsValid}
use tiramisu.Cache.Lru.Reads.{put-find, get-find}

abbrev pub num_shards : ℕ
num_shards = 32

-- `CacheStats`
pub record CacheStats : Type 0 where
  pub size : ℕ
  pub capacity : ℕ
  pub entries : ℕ

module _ {K V : Type 0} ⦃e : Eq K⦄ where
  -- `NewLRUCache`
  unfoldable pub new_lru_cache : ℕ → ℕ → List (Lru K V)
  new_lru_cache capacity ttl =
      let shard_cap = if capacity / num_shards == 0 then 1048576 else capacity / num_shards in
      replicate num_shards (new_simple_lru_cache shard_cap ttl)

  -- The sums of `Len` and `CleanupExpired` over the shards.
  unfoldable pub total_len : List (Lru K V) → ℕ
  total_len [] = 0
  total_len (s ∷ l) = len s + total_len l

  unfoldable pub cleanup_all : ℕ → List (Lru K V) → List (Lru K V) × ℕ
  cleanup_all now [] = ([], 0)
  cleanup_all now (s ∷ l) =
      let (s', n) = cleanup_expired now s in let (l', m) = cleanup_all now l in (s' ∷ l', n + m)

  unfoldable pub stats : List (Lru K V) → CacheStats
  stats [] = record { size = 0; capacity = 0; entries = 0 }
  stats (s ∷ l) =
      let t = stats l in
      record {
        size = s.current_size + t.size;
        capacity = s.capacity + t.capacity;
        entries = len s + t.entries;
      }

-- `hash & shardMask`, the mask being 31.
unfoldable pub shard_index : {K : Type 0} → (K → ℕ) → K → ℕ
shard_index hash key = hash key % num_shards

module _ {K V : Type 0} ⦃e : Eq K⦄ where
  abbrev pub AllValid : List (Lru K V) → Type 0
  AllValid [] = Unit
  AllValid (s ∷ l) = IsValid s × AllValid l

  pub AllValid-replicate : (n : ℕ) (s : Lru K V) → IsValid s → AllValid (replicate n s)
  AllValid-replicate zero s v = tt
  AllValid-replicate (suc n) s v = (v, AllValid-replicate n s v)

  AllValid-get :
      (i : ℕ) (l : List (Lru K V)) {s : Lru K V} → AllValid l → get_elem? l i ≡ some s → IsValid s
  AllValid-get i [] v h = cc
  AllValid-get zero (s ∷ l) v h = subst (λ t. IsValid t) (some-injective _ _ h) v.0
  AllValid-get (suc i) (s ∷ l) v h = AllValid-get i l v.1 h

  get_elem?_within :
      (i : ℕ) (l : List (Lru K V)) → i < length l → (s : Lru K V) × (get_elem? l i ≡ some s)
  get_elem?_within i [] h = absurd (omega arith)
  get_elem?_within zero (s ∷ l) h = (s, refl)
  get_elem?_within (suc i) (s ∷ l) h = get_elem?_within i l (omega arith)

module _ {K V : Type 0} ⦃e : Eq K⦄ (hash : K → ℕ) where
  -- A call on the key's shard; `none` is an index out of range.
  unfoldable pub on_shard :
      {R : Type 0} → K → (Lru K V → Lru K V × R) → List (Lru K V) → Option (List (Lru K V) × R)
  on_shard key call shards = elim (get_elem? shards (shard_index hash key)) [
    | none ↦ none
    | some s ↦ let (s', r) = call s in some (set shards (shard_index hash key) s', r)
  ]

  unfoldable pub sharded_get : K → ℕ → List (Lru K V) → Option (List (Lru K V) × Option V)
  sharded_get key now = on_shard key (get key now)

  unfoldable pub sharded_put : K → V → ℕ → ℕ → List (Lru K V) → Option (List (Lru K V) × Unit {0})
  sharded_put key value size now = on_shard key (λ s. (put key value size now s, tt))

  unfoldable pub sharded_delete : K → List (Lru K V) → Option (List (Lru K V) × Bool)
  sharded_delete key = on_shard key (delete_key key)

  -- The entry that a lookup of the key sees.
  unfoldable pub sharded_find : K → List (Lru K V) → Option (ℕ × Entry K V)
  sharded_find key shards = elim (get_elem? shards (shard_index hash key)) [
    | none ↦ none
    | some s ↦ find key s
  ]

  index_within :
      (key : K) (shards : List (Lru K V))
      → length shards ≡ num_shards
      → shard_index hash key < length shards
  unfolding shard_index
  index_within key shards n = omega arith

  on_shard_lem :
      {R : Type 0} (key : K) (call : Lru K V → Lru K V × R) (shards : List (Lru K V)) (s : Lru K V)
      → get_elem? shards (shard_index hash key) ≡ some s
      → on_shard key call shards ≡ some (set shards (shard_index hash key) (call s).0, (call s).1)
  unfolding on_shard
  on_shard_lem key call shards s h = rw (h, on_shard)

  -- A stored value is what a `Get` of the same key answers until the time to live is over, through
  -- the shards, whatever the hash is: the index is always in range.
  pub sharded_get-put :
      (key : K) (value : V) (size now later : ℕ) (shards : List (Lru K V)) (s : Lru K V)
      → length shards ≡ num_shards
      → AllValid shards
      → get_elem? shards (shard_index hash key) ≡ some s
      → later ≤ now + s.ttl
      → (shards' : List (Lru K V)) × (shards'' : List (Lru K V)) × (sharded_put key value size now
            shards
          ≡ some (shards', tt))
        × (sharded_get key later shards' ≡ some (shards'', some value))
  unfolding sharded_put sharded_get new_entry
  sharded_get-put key value size now later shards s n v at fresh =
      let i = shard_index hash key in
      let s' = put key value size now s in
      let valid : IsValid s = AllValid-get i shards v at in
      let (p, stored) = put-find key value size now s valid in
      let within : i < length shards = index_within key shards n in
      let at' = get_elem?-set_self shards i s' within in
      let answer : (get key later s').1 ≡ some value =
        (get-find key key later s' (put-IsValid key value size now s valid)).0
        ∙ rw stored (ground arith) in
      (
        set shards i s',
        set (set shards i s') i (get key later s').0,
        on_shard_lem key (λ t. (put key value size now t, tt)) shards s at,
        on_shard_lem key (get key later) (set shards i s') s' at' ∙ rw answer,
      )

  -- A `Put` leaves every key of another shard as it was.
  pub sharded_put-find_ne :
      (key j : K) (value : V) (size now : ℕ) (shards : List (Lru K V))
      → length shards ≡ num_shards
      → shard_index hash key ≢ shard_index hash j
      → (shards' : List (Lru K V)) × (sharded_put key value size now shards ≡ some (shards', tt))
        × (sharded_find j shards' ≡ sharded_find j shards)
  unfolding sharded_put sharded_find
  sharded_put-find_ne key j value size now shards n other =
      let i = shard_index hash key in
      let (s, at) = get_elem?_within i shards (index_within key shards n) in
      (
        set shards i (put key value size now s),
        on_shard_lem key (λ t. (put key value size now t, tt)) shards s at,
        rw (sharded_find, get_elem?-set_ne shards (put key value size now s) other),
      )
