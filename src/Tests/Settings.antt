-- ===== src/Tests/Settings.antt =====
-- settings: a database as an association list, and the theorems about its caches.
use tiramisu.Base.{ℕ, ◌≤◌, ◌⊎◌, ◌≡◌, refl, true, false, Option, none, some, List, [], ◌∷◌, length}
use tiramisu.Base.Eq.{GoString, codes, str_eq, string_eq}
use tiramisu.Base.GoMap.{Map, lookup, delete}
use tiramisu.Settings.DataLru.{DataKey, data_key_eq, DataLru, new_data_lru, put_data, path_left}
use tiramisu.Settings.DataLru.Bytes.{IsValid, put_data-IsValid}
use tiramisu.Settings.ReadCache.{GoStormDb, ReadCache, new_read_cache, fill, get_cached, set_cached}
use tiramisu.Settings.ReadCache.Refines.{
  Call, get, set, list, rem, clear, close, Answer, bytes, names, done, panicked,
}
use tiramisu.Settings.ReadCache.Agrees.{Refines}
use tiramisu.Settings.ReadCache.Race.{set_between-fill}
use tiramisu.Settings.ReadCache.Run.{run}

abbrev Rows : Type 0
Rows = Map DataKey (List ℕ)

abbrev read : Option (List ℕ) → List ℕ
read none = []
read (some v) = v

abbrev names_in : GoString → Rows → List GoString
names_in path [] = []
names_in path ((k, v) ∷ d) = elim (str_eq k.path path) [
  | true ↦ k.name ∷ names_in path d
  | false ↦ names_in path d
]

abbrev rows_db : GoStormDb Rows
rows_db = record {
  get = λ k d. read (lookup k d);
  set = λ k v d. (k, v) ∷ delete k d;
  list = names_in;
  rem = delete;
  clear = path_left;
}

abbrev settings_key : DataKey
settings_key = record { path = codes "Settings"; name = codes "BitTorr" }

abbrev torrent_key : DataKey
torrent_key = record { path = codes "Torrents"; name = codes "aa" }

-- Two records fill a cache of three bytes; reads before and after the writes.
abbrev calls : List Call
calls =
    get torrent_key
    ∷ set settings_key (1 ∷ 2 ∷ [])
    ∷ list (codes "Torrents")
    ∷ set torrent_key (3 ∷ 4 ∷ [])
    ∷ get settings_key
    ∷ list (codes "Torrents")
    ∷ rem torrent_key
    ∷ get torrent_key
    ∷ clear (codes "Settings")
    ∷ get settings_key
    ∷ close
    ∷ get settings_key
    ∷ []

answers :
    (run rows_db false
      (get settings_key
        ∷ set settings_key (1 ∷ 2 ∷ [])
        ∷ get settings_key
        ∷ close
        ∷ get settings_key
        ∷ close
        ∷ [])
      (new_read_cache rows_db 3 [])).1
    ≡ bytes [] ∷ done ∷ bytes (1 ∷ 2 ∷ []) ∷ done ∷ bytes [] ∷ panicked ∷ []
unfolding run tiramisu.Settings.ReadCache.Refines.call tiramisu.Settings.ReadCache.get_cached
    tiramisu.Settings.ReadCache.set_cached tiramisu.Settings.ReadCache.close_db
    tiramisu.Settings.ReadCache.fill tiramisu.Settings.DataLru.get_data put_data
    tiramisu.Settings.DataLru.put_front tiramisu.Settings.DataLru.trim_data lookup new_read_cache
    new_data_lru delete str_eq
answers = refl

abbrev one_record : DataLru
one_record = record { limit = 3; bytes = 2; order = (settings_key, 1 ∷ 2 ∷ []) ∷ [] }

put_data-IsValid_example :
    IsValid (put_data torrent_key (3 ∷ 4 ∷ []) one_record)
    × (((put_data torrent_key (3 ∷ 4 ∷ []) one_record).bytes ≤ 3)
        ⊎ (length (put_data torrent_key (3 ∷ 4 ∷ []) one_record).order ≤ 1))
    × ((put_data torrent_key (3 ∷ 4 ∷ []) one_record).limit ≡ 3)
unfolding lookup
put_data-IsValid_example =
    put_data-IsValid torrent_key (3 ∷ 4 ∷ []) one_record
      (record { keys = (refl, tt); counted = refl })

abbrev empty_cache : ReadCache Rows
empty_cache = record { database = []; lists = []; entries = one_record; closed = false }

set_between-fill_example :
    ((get_cached rows_db torrent_key
        (fill rows_db torrent_key [] (set_cached rows_db false torrent_key (9 ∷ []) empty_cache))).1
      ≡ [])
    × (read (
          lookup torrent_key
            (fill rows_db torrent_key []
              (set_cached rows_db false torrent_key (9 ∷ []) empty_cache)).database)
        ≡ 9 ∷ [])
unfolding lookup str_eq delete
set_between-fill_example = set_between-fill rows_db torrent_key (9 ∷ []) empty_cache refl refl
