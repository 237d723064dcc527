-- ===== src/Syncer/StateStore.antt =====
-- internal/syncer/statestore/store.go: a map with time stamps that a JSON file backs. Stamps and the
-- clock are Unix seconds, the time to live is in nanoseconds as Go holds it. The files
-- and encoding/json are outside: `json.MarshalIndent` and `json.Unmarshal` of the map are parameters,
-- and `Open` takes the bytes of the file, or none where it cannot be read.
pub mod Pruning
use tiramisu.Base.{
  ℕ, ◌+◌, ◌/◌, Bool, true, false, not, ◌&&◌, ◌||◌, Option, none, some, [], ◌∷◌, length, ltb, leb,
  ◌==◌, if◌then◌else◌,
}
use tiramisu.Base.Eq.{GoString, string_eq}
use tiramisu.Base.GoMap.{Map, lookup, insert, delete}

pub record Stamped (V : Type 0) : Type 0 where
  pub value : V
  pub ts : ℕ

pub record Store (V : Type 0) : Type 0 where
  pub ttl : ℕ
  pub entries : Map GoString (Stamped V)

-- `int64(ttl.Seconds())`
unfoldable pub ttl_seconds : ℕ → ℕ
ttl_seconds ttl = ttl / 1000000000

module _ {V : Type 0} where
  -- The test of `Open` for one entry.
  unfoldable pub loads : ℕ → ℕ → Stamped V → Bool
  unfolding ttl_seconds
  loads ttl now e = e.ts == 0 || (ttl == 0 || ltb now (e.ts + ttl_seconds ttl))

  unfoldable pub load_entries : ℕ → ℕ → Map GoString (Stamped V) → Map GoString (Stamped V)
  unfolding loads
  load_entries ttl now [] = []
  load_entries ttl now ((k, e) ∷ m) =
      if loads ttl now e then (k, e) ∷ load_entries ttl now m else load_entries ttl now m

  -- `Open`, with `json.Unmarshal`, the time and the bytes of the file.
  unfoldable pub open_store :
      {Bytes : Type 0}
      → (Bytes → Option (Map GoString (Stamped V)))
      → ℕ
      → ℕ
      → Option Bytes
      → Store V
  unfolding load_entries
  open_store unmarshal ttl now none = record { ttl = ttl; entries = [] }
  open_store unmarshal ttl now (some file) = elim (unmarshal file) [
    | none ↦ record { ttl = ttl; entries = [] }
    | some m ↦ record { ttl = ttl; entries = load_entries ttl now m }
  ]

  -- `Get`
  unfoldable pub get_value : GoString → ℕ → Store V → Option V
  unfolding ttl_seconds
  get_value key now s = elim (lookup key s.entries) [
    | none ↦ none
    | some e ↦
        if not (e.ts == 0) && (ltb 0 s.ttl && leb (e.ts + ttl_seconds s.ttl) now)
        then none
        else some e.value
  ]

  unfoldable pub set_value : GoString → V → ℕ → Store V → Store V
  set_value key value now s = record s {
    entries = insert key (record { value = value; ts = now }) s.entries;
  }

  unfoldable pub set_permanent : GoString → V → Store V → Store V
  set_permanent key value s = record s {
    entries = insert key (record { value = value; ts = 0 }) s.entries;
  }

  unfoldable pub delete_value : GoString → Store V → Store V
  delete_value key s = record s { entries = delete key s.entries }

  -- The bytes that `Save` writes, with `json.MarshalIndent`; none is its error, and nothing is written.
  unfoldable pub saved :
      {Bytes : Type 0} → (Map GoString (Stamped V) → Option Bytes) → Store V → Option Bytes
  saved marshal s = marshal s.entries

  unfoldable pub store_len : Store V → ℕ
  store_len s = length s.entries
