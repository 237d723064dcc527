-- ===== src/Tests/Cache.antt =====
-- lrucache.go: the metadata cache at concrete inputs. Keys are strings, values numbers.
use tiramisu.Base.{
  ℕ, ◌+◌, ◌≤◌, ◌<◌, ◌≡◌, ◌≢◌, ◌↔◌, refl, ◌⊎◌, Bool, true, false, Option, none, some, List, [], ◌∷◌,
  ◌++◌, length, get_elem?, ltb, if◌then◌else◌, arith,
}
use tiramisu.Base.Eq.{GoString, codes, string_eq, str_eq, nat_eq}
use tiramisu.Base.GoMap.{lookup, insert, delete}
use tiramisu.Cache.Lru.{
  Entry, Lru, expired, find, new_simple_lru_cache, get, get_write, put, new_entry,
}
use tiramisu.Cache.Lru.Linked.{IsValid, total}
use tiramisu.Cache.Lru.Valid.{Reach, here, next, stored, Reach-IsValid, new-IsValid}
use tiramisu.Cache.Lru.Reads.{put-find, get-find, stale_get_drops}
use tiramisu.Cache.Lru.Room.{Needed, put_makes_room}
use tiramisu.Cache.Sharded.{num_shards, AllValid, AllValid-replicate}

abbrev empty : Lru GoString ℕ
empty = record { capacity = 100; current_size = 0; ttl = 50; items = []; order = []; fresh = 0 }

abbrev one : Lru GoString ℕ
one = put (codes "a") 1 60 10 empty

abbrev two : Lru GoString ℕ
two = put (codes "b") 2 30 20 one

-- A third entry does not fit: the oldest goes.
third_evicts : (put (codes "c") 3 40 30 two).items ≡ (codes "b", 1) ∷ (codes "c", 2) ∷ []
unfolding put find lookup insert delete str_eq
third_evicts = refl

Reach-two : Reach (new_simple_lru_cache 100 50) two
unfolding new_simple_lru_cache
Reach-two =
    next {d = one} (next {d = empty} here (stored empty (codes "a") 1 60 10))
      (stored one (codes "b") 2 30 20)

Reach-IsValid_example : IsValid two
Reach-IsValid_example = Reach-IsValid 100 50 Reach-two

put-find_example :
    (p : ℕ) × (find (codes "c") (put (codes "c") 3 40 30 two)
      ≡ some (p, new_entry (codes "c") 3 40 30 two))
put-find_example = put-find (codes "c") 3 40 30 two Reach-IsValid_example

get-find_example :
    ((get (codes "a") 40 two).1 ≡ elim (find (codes "a") two) [
      | none ↦ none
      | some (p, entry) ↦ if ltb entry.expires_at 40 then none else some entry.value
    ])
    × (((get (codes "a") 40 two).1 ≡ none) → find (codes "a") (get (codes "a") 40 two).0 ≡ none)
    × (codes "a" ≢ codes "b" → find (codes "b") (get (codes "a") 40 two).0 ≡ find (codes "b") two)
get-find_example = get-find (codes "a") (codes "b") 40 two Reach-IsValid_example

stale_get_drops_example :
    find (codes "a") (get_write (codes "a") expired 90 (put (codes "a") 7 60 80 two)).0 ≡ none
stale_get_drops_example = stale_get_drops (codes "a") 7 60 80 90 two Reach-IsValid_example

absent_c : find (codes "c") two ≡ none
unfolding put find lookup insert delete str_eq
absent_c = refl

put_makes_room_example :
    (p : ℕ) × (kept : List (ℕ × Entry GoString ℕ)) × (gone : List (ℕ × Entry GoString ℕ))
    × (two.order ≡ kept ++ gone)
    × ((put (codes "c") 3 40 30 two).order ≡ (p, new_entry (codes "c") 3 40 30 two) ∷ kept)
    × Needed two 40 (total kept) gone
    × (((put (codes "c") 3 40 30 two).current_size ≤ two.capacity) ⊎ (kept ≡ []))
put_makes_room_example = put_makes_room (codes "c") 3 40 30 two Reach-IsValid_example absent_c

-- A hash for the runs: the length.
abbrev by_length : GoString → ℕ
by_length = length

abbrev shards : List (Lru GoString ℕ)
shards = tiramisu.Base.replicate num_shards empty

AllValid-shards : AllValid shards
unfolding new_simple_lru_cache
AllValid-shards = AllValid-replicate num_shards empty (new-IsValid 100 50)
