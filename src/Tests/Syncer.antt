-- ===== src/Tests/Syncer.antt =====
-- store.go: the store at concrete inputs. An hour of time to live.
use tiramisu.Base.{ℕ, ◌≤◌, ◌≡◌, refl, Option, some, [], ◌∷◌, arith}
use tiramisu.Base.Eq.{GoString, codes, string_eq, str_eq}
use tiramisu.Base.GoMap.{Map, lookup, Unique}
use tiramisu.Syncer.StateStore.{Stamped, Store, open_store, get_value, saved}
use tiramisu.Syncer.StateStore.Pruning.{get_value-open_store}

abbrev hour : Store ℕ
hour = record {
  ttl = 3600000000000;
  entries =
      (codes "old", record { value = 1; ts = 1000 })
      ∷ (codes "new", record { value = 2; ts = 9000 })
      ∷ (codes "kept", record { value = 3; ts = 0 })
      ∷ [];
}

Unique-hour : Unique hour.entries
unfolding lookup str_eq
Unique-hour = (refl, (refl, (refl, tt)))

-- A file that holds the map itself.
abbrev plain_file : Map GoString (Stamped ℕ) → Option (Map GoString (Stamped ℕ))
plain_file m = some m

get_value-open_store_example :
    (file : Map GoString (Stamped ℕ)) × (saved plain_file hour ≡ some file)
    × (get_value (codes "old") 9200 (open_store plain_file 3600000000000 9100 (some file))
        ≡ get_value (codes "old") 9200 hour)
get_value-open_store_example =
    get_value-open_store plain_file plain_file (λ k v. v ≤ 3)
      (λ m u fit. (m, m, refl, refl, u, λ k. refl)) hour (codes "old") 9100 9200 Unique-hour
      (omega arith, (omega arith, (omega arith, tt))) (omega arith)
