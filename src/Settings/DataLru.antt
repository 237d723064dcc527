-- ===== src/Settings/DataLru.antt =====
-- internal/gostorm/settings/datalru.go: the byte-bounded LRU of the database's records. The source keeps a
-- list and a map from each key to its element and writes both together; here the list from front to
-- back stands for both, and a lookup in it for the map. `bytes` is non-negative.
pub mod Bytes
use tiramisu.Base.{
  ℕ, zero, suc, ◌+◌, ◌-◌, ◌≡◌, ◌↔◌, Bool, true, false, ◌&&◌, Option, none, some, List, [], ◌∷◌,
  length, ltb, if◌then◌else◌, arith,
}
use tiramisu.Base.Eq.{Eq, GoString, str_eq, str_eq_iff, string_eq, ◌=?◌}
use tiramisu.Base.GoMap.{Map, lookup, delete}

-- `[2]string`: the path and the name.
pub record DataKey : Type 0 where
  pub path : GoString
  pub name : GoString

abbrev pub key_eq : DataKey → DataKey → Bool
key_eq a b = str_eq a.path b.path && str_eq a.name b.name

pub key_eq_iff : (a b : DataKey) → (key_eq a b ≡ true) ↔ (a ≡ b)
key_eq_iff a b = ground (arith, str_eq_iff a.path b.path, str_eq_iff a.name b.name)

instance abbrev pub data_key_eq : Eq DataKey
data_key_eq = record { beq = key_eq; beq_iff = key_eq_iff }

-- A value is its bytes.
pub record DataLru : Type 0 where
  pub limit : ℕ
  pub bytes : ℕ
  pub order : Map DataKey (List ℕ)

unfoldable pub new_data_lru : ℕ → DataLru
new_data_lru limit = record { limit = limit; bytes = 0; order = [] }

-- `get`: the new state, and the value.
unfoldable pub get_data : DataKey → DataLru → DataLru × Option (List ℕ)
get_data key c = elim (lookup key c.order) [
  | none ↦ (c, none)
  | some val ↦ (record c { order = (key, val) ∷ delete key c.order }, some val)
]

-- `Back`, and the list without it.
unfoldable pub back_size : Map DataKey (List ℕ) → ℕ
back_size [] = 0
back_size ((key, val) ∷ l) = elim l [ [] ↦ length val | _ ∷ _ ↦ back_size l ]

unfoldable pub without_back : Map DataKey (List ℕ) → Map DataKey (List ℕ)
without_back [] = []
without_back (e ∷ l) = elim l [ [] ↦ [] | _ ∷ _ ↦ e ∷ without_back l ]

unfoldable pub evict_oldest : DataLru → DataLru
unfolding back_size without_back
evict_oldest c = record c { bytes = c.bytes - back_size c.order; order = without_back c.order }

-- The loop of `put`; each round drops an element, so the length of the list is fuel enough.
unfoldable pub trim_data : ℕ → DataLru → DataLru
unfolding evict_oldest
trim_data zero c = c
trim_data (suc fuel) c =
    let rest = trim_data fuel (evict_oldest c) in
    if ltb c.limit c.bytes && ltb 1 (length c.order) then rest else c

-- `put` up to the loop.
unfoldable pub put_front : DataKey → List ℕ → DataLru → DataLru
put_front key val c = elim (lookup key c.order) [
  | some old ↦ record c {
    bytes = c.bytes + length val - length old;
    order = (key, val) ∷ delete key c.order;
  }
  | none ↦ record c { bytes = c.bytes + length val; order = (key, val) ∷ c.order }
]

unfoldable pub put_data : DataKey → List ℕ → DataLru → DataLru
unfolding put_front trim_data
put_data key val c = let c' = put_front key val c in trim_data (length c'.order) c'

unfoldable pub remove_data : DataKey → DataLru → DataLru
remove_data key c = elim (lookup key c.order) [
  | none ↦ c
  | some val ↦ record c { bytes = c.bytes - length val; order = delete key c.order }
]

-- The walk of `removePath`: what is left of the list, and of the bytes.
unfoldable pub path_left : GoString → Map DataKey (List ℕ) → Map DataKey (List ℕ)
path_left path [] = []
path_left path ((key, val) ∷ l) =
    if str_eq key.path path then path_left path l else (key, val) ∷ path_left path l

unfoldable pub path_bytes : GoString → Map DataKey (List ℕ) → ℕ → ℕ
path_bytes path [] n = n
path_bytes path ((key, val) ∷ l) n =
    path_bytes path l (if str_eq key.path path then n - length val else n)

unfoldable pub remove_path : GoString → DataLru → DataLru
unfolding path_left path_bytes
remove_path path c = record c {
  bytes = path_bytes path c.order c.bytes;
  order = path_left path c.order;
}
