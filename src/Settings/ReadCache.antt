-- ===== src/Settings/ReadCache.antt =====
-- internal/gostorm/settings/dbreadcache.go: the read cache in front of the engine's database. The database is
-- the interface `GoStormDB`, as far as the cache calls it; nothing is assumed of it. A closed cache has
-- no database and no maps, and closing it again panics. Values are bytes.
pub mod Agrees
pub mod Refines
pub mod Run
pub mod Race
use tiramisu.Base.{
  ℕ, ◌≡◌, ◌≢◌, Bool, true, false, ◌||◌, Option, none, some, List, [], ◌∷◌, if◌then◌else◌,
}
use tiramisu.Base.Eq.{GoString, string_eq}
use tiramisu.Base.GoMap.{Map, lookup, insert, delete}
use tiramisu.Settings.DataLru.{
  DataKey, DataLru, new_data_lru, get_data, put_data, remove_data, remove_path,
}

-- `D` is what the database holds.
pub record GoStormDb (D : Type 0) : Type 0 where
  pub get : DataKey → D → List ℕ
  pub set : DataKey → List ℕ → D → D
  pub list : GoString → D → List GoString
  pub rem : DataKey → D → D
  pub clear : GoString → D → D

pub record ReadCache (D : Type 0) : Type 0 where
  pub database : D
  pub lists : Map GoString (List GoString)
  pub entries : DataLru
  pub closed : Bool

module _ {D : Type 0} (db : GoStormDb D) where
  unfoldable pub new_read_cache : ℕ → D → ReadCache D
  unfolding new_data_lru
  new_read_cache limit d = record {
    database = d;
    lists = [];
    entries = new_data_lru limit;
    closed = false;
  }

  -- `CloseDB`; none is the panic of a call on the database that is gone.
  unfoldable pub close_db : ReadCache D → Option (ReadCache D)
  close_db c = if c.closed then none else some (record c { closed = true })

  -- `Get` behind a miss: what the database says is stored under the second lock.
  unfoldable pub fill : DataKey → List ℕ → ReadCache D → ReadCache D
  fill key val c = if c.closed then c else record c { entries = put_data key val c.entries }

  -- `Get`, with no other call between its locks.
  unfoldable pub get_cached : DataKey → ReadCache D → ReadCache D × List ℕ
  unfolding fill
  get_cached key c =
      if c.closed
      then (c, [])
      else (let (entries, hit) = get_data key c.entries in
          elim hit [
            | some val ↦ (record c { entries = entries }, val)
            | none ↦ (fill key (db.get key c.database) c, db.get key c.database)
          ])

  -- `Set`; the first argument is the read-only mode.
  unfoldable pub set_cached : Bool → DataKey → List ℕ → ReadCache D → ReadCache D
  set_cached read_only key val c = if read_only || c.closed then c else record c {
    database = db.set key val c.database;
    entries = put_data key val c.entries;
    lists = delete key.path c.lists;
  }

  -- `List`
  unfoldable pub list_cached : GoString → ReadCache D → ReadCache D × List GoString
  list_cached path c = if c.closed then (c, []) else (elim (lookup path c.lists) [
    | some names ↦ (c, names)
    | none ↦ (
      record c { lists = insert path (db.list path c.database) c.lists },
      db.list path c.database,
    )
  ])

  -- `Rem`
  unfoldable pub rem_cached : Bool → DataKey → ReadCache D → ReadCache D
  rem_cached read_only key c = if read_only || c.closed then c else record c {
    database = db.rem key c.database;
    entries = remove_data key c.entries;
    lists = delete key.path c.lists;
  }

  -- `Clear`
  unfoldable pub clear_cached : Bool → GoString → ReadCache D → ReadCache D
  clear_cached read_only path c = if read_only || c.closed then c else record c {
    database = db.clear path c.database;
    entries = remove_path path c.entries;
    lists = delete path c.lists;
  }
