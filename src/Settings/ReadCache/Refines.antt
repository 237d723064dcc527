-- ===== src/Settings/ReadCache/Refines.antt =====
-- dbreadcache.go: each call answers with what was last told of a record or with what the database says.
use tiramisu.Base.{
  ℕ, ◌≡◌, refl, sym, ap, ◌∙◌, ◌⊎◌, inl, inr, Bool, true, false, Option, none, some, List, [],
  if◌then◌else◌, arith, Bool-cases, Option-cases,
}
use mathlib.Core.Path.{subst}
use tiramisu.Base.Eq.{GoString, string_eq, =?_iff}
use tiramisu.Base.GoMap.{lookup, insert, delete, lookup-insert}
use tiramisu.Settings.DataLru.{
  DataKey, data_key_eq, get_data, put_data, remove_data, remove_path, path_left,
}
use tiramisu.Settings.DataLru.Bytes.{get_data-IsValid, get_data-some, get_data_hit}
use tiramisu.Settings.ReadCache.Agrees.{Memo, Agrees, Refines, put-Agrees, rem-Agrees, clear-Agrees}
use tiramisu.Settings.ReadCache.{
  GoStormDb, ReadCache, close_db, fill, get_cached, set_cached, list_cached, rem_cached,
  clear_cached,
}

pub data Call : Type 0 where
  get : DataKey → Call
  set : DataKey → List ℕ → Call
  list : GoString → Call
  rem : DataKey → Call
  clear : GoString → Call
  close : Call

pub data Answer : Type 0 where
  bytes : List ℕ → Answer
  names : List GoString → Answer
  done : Answer
  panicked : Answer

module _ {D : Type 0} (db : GoStormDb D) (read_only : Bool) where
  -- A panic changes nothing.
  unfoldable pub call : Call → ReadCache D → ReadCache D × Answer
  call (get key) c = let (c', val) = get_cached db key c in (c', bytes val)
  call (set key val) c = (set_cached db read_only key val c, done)
  call (list path) c = let (c', l) = list_cached db path c in (c', names l)
  call (rem key) c = (rem_cached db read_only key c, done)
  call (clear path) c = (clear_cached db read_only path c, done)
  call close c = elim (close_db db c) [ none ↦ (c, panicked) | some c' ↦ (c', done) ]

  -- What a call may answer and what is told after it. A value is the one that was last told, or the
  -- database's; names that were told are told again, else the database is asked. A write goes to the
  -- database. None is a closed cache.
  abbrev pub Told : Call → Option (Memo D) → Answer → Option (Memo D) → Type 0
  Told (get key) none a o = (a ≡ bytes []) × (o ≡ none)
  Told (list path) none a o = (a ≡ names []) × (o ≡ none)
  Told close none a o = (a ≡ panicked) × (o ≡ none)
  Told _ none a o = (a ≡ done) × (o ≡ none)
  Told (get key) (some m) a o =
      (val : List ℕ) × (a ≡ bytes val)
      × ((lookup key m.told ≡ some val) ⊎ (val ≡ db.get key m.database))
      × (o ≡ some (record m { told = insert key val m.told }))
  Told (set key val) (some m) a o =
      (a ≡ done)
      × (o
          ≡ some (
              if read_only then m else record {
                database = db.set key val m.database;
                told = insert key val m.told;
                listed = delete key.path m.listed;
              }))
  Told (list path) (some m) a o =
      (l : List GoString) × (a ≡ names l)
      × ((lookup path m.listed ≡ some l) × (o ≡ some m)
          ⊎ (lookup path m.listed ≡ none)
            × (l ≡ db.list path m.database)
            × (o ≡ some (record m { listed = insert path l m.listed })))
  Told (rem key) (some m) a o =
      (a ≡ done)
      × (o
          ≡ some (
              if read_only then m else record {
                database = db.rem key m.database;
                told = delete key m.told;
                listed = delete key.path m.listed;
              }))
  Told (clear path) (some m) a o =
      (a ≡ done)
      × (o
          ≡ some (
              if read_only then m else record {
                database = db.clear path m.database;
                told = path_left path m.told;
                listed = delete path m.listed;
              }))
  Told close (some m) a o = (a ≡ done) × (o ≡ none)

  -- A call on a cache that agrees with a memo.
  abbrev Step : Call → Option (Memo D) → ReadCache D × Answer → Type 0
  Step op o r = (o' : Option (Memo D)) × Told op o r.1 o' × Refines r.0 o'

  get_step :
      (key : DataKey) (c : ReadCache D) (m : Memo D)
      → c.closed ≡ false
      → Agrees c m
      → Step (get key) (some m) (call (get key) c)
  unfolding call get_cached fill
  get_step key c m open_ a =
      let found = get_data_hit key c.entries in
      elim (Option-cases (lookup key c.entries.order)) [
        | inr (val, e) ↦
            let c' : ReadCache D = record c { entries = (get_data key c.entries).0 } in
            let after : call (get key) c ≡ (c', bytes val) = ground (arith, open_, e, found) in
            let m' : Memo D = record m { told = insert key val m.told } in
            subst (λ r. Step (get key) (some m) r) (sym after)
              (
                some m',
                (val, refl, inl (a.entry key val e), refl),
                (
                  open_,
                  record {
                    same = a.same;
                    lists = a.lists;
                    valid = get_data-IsValid key c.entries a.valid;
                    entry = λ k v h.
                        let before = a.entry k v (get_data-some key k v c.entries h) in
                        ground (
                          arith,
                          before,
                          a.entry key val e,
                          lookup-insert key k val m.told,
                          =?_iff key k,
                        );
                  },
                ),
              )
        | inl e ↦
            let val = db.get key c.database in
            let c' : ReadCache D = record c { entries = put_data key val c.entries } in
            let after : call (get key) c ≡ (c', bytes val) = ground (arith, open_, e, found) in
            let m' : Memo D = record m { told = insert key val m.told } in
            subst (λ r. Step (get key) (some m) r) (sym after)
              (
                some m',
                (val, refl, inr (ap (λ x. db.get key x) a.same), refl),
                (
                  open_,
                  put-Agrees key val c m c.database m.database c.lists m.listed a.same a.lists a,
                ),
              )
      ]

  list_step :
      (path : GoString) (c : ReadCache D) (m : Memo D)
      → c.closed ≡ false
      → Agrees c m
      → Step (list path) (some m) (call (list path) c)
  unfolding call list_cached
  list_step path c m open_ a = elim (Option-cases (lookup path c.lists)) [
    | inr (l, e) ↦
        let after : call (list path) c ≡ (c, names l) = ground (arith, open_, e) in
        let at : lookup path m.listed ≡ some l = ap (λ x. lookup path x) (sym a.lists) ∙ e in
        subst (λ r. Step (list path) (some m) r) (sym after)
          (some m, (l, refl, inl (at, refl)), (open_, a))
    | inl e ↦
        let l = db.list path c.database in
        let c' : ReadCache D = record c { lists = insert path l c.lists } in
        let m' : Memo D = record m { listed = insert path l m.listed } in
        let after : call (list path) c ≡ (c', names l) = ground (arith, open_, e) in
        let at : lookup path m.listed ≡ none = ap (λ x. lookup path x) (sym a.lists) ∙ e in
        subst (λ r. Step (list path) (some m) r) (sym after)
          (
            some m',
            (l, refl, inr (at, ap (λ x. db.list path x) a.same, refl)),
            (
              open_,
              record {
                same = a.same;
                lists = ap (λ x. insert path l x) a.lists;
                valid = a.valid;
                entry = a.entry;
              },
            ),
          )
  ]

  -- A write either is refused in read-only mode or goes to the cache and the database.
  write_step :
      (r c c' : ReadCache D) (m m' : Memo D)
      → (read_only ≡ true → r ≡ c)
      → (read_only ≡ false → r ≡ c')
      → Refines c (some m)
      → Refines c' (some m')
      → Refines r (some (if read_only then m else m'))
  write_step r c c' m m' refused written before after = elim (Bool-cases read_only) [
    | inl e ↦ rw e (subst (λ x. Refines x (some m)) (sym (refused e)) before)
    | inr e ↦ rw e (subst (λ x. Refines x (some m')) (sym (written e)) after)
  ]

  pub call-Refines :
      (op : Call) (c : ReadCache D) (o : Option (Memo D)) → Refines c o → Step op o (call op c)
  unfolding call get_cached set_cached list_cached rem_cached clear_cached close_db
  call-Refines (get key) c none h = (none, (ground (arith, h), refl), ground (arith, h))
  call-Refines (set key val) c none h = (none, (refl, refl), ground (arith, h))
  call-Refines (list path) c none h = (none, (ground (arith, h), refl), ground (arith, h))
  call-Refines (rem key) c none h = (none, (refl, refl), ground (arith, h))
  call-Refines (clear path) c none h = (none, (refl, refl), ground (arith, h))
  call-Refines close c none h = (none, (ground (arith, h), refl), ground (arith, h))
  call-Refines (get key) c (some m) (o, a) = get_step key c m o a
  call-Refines (list path) c (some m) (o, a) = list_step path c m o a
  call-Refines close c (some m) (o, a) = (none, (ground (arith, o), refl), ground (arith, o))
  call-Refines (set key val) c (some m) (o, a) =
      let c' : ReadCache D = record c {
        database = db.set key val c.database;
        entries = put_data key val c.entries;
        lists = delete key.path c.lists;
      } in
      let m' : Memo D = record {
        database = db.set key val m.database;
        told = insert key val m.told;
        listed = delete key.path m.listed;
      } in
      let after =
        put-Agrees key val c m (db.set key val c.database) (db.set key val m.database)
          (delete key.path c.lists) (delete key.path m.listed) (ap (λ x. db.set key val x) a.same)
          (ap (λ x. delete key.path x) a.lists) a in
      (
        some (if read_only then m else m'),
        (refl, refl),
        write_step (set_cached db read_only key val c) c c' m m' (λ e. ground arith)
            (λ e. ground (arith, o)) (o, a) (o, after),
      )
  call-Refines (rem key) c (some m) (o, a) =
      let c' : ReadCache D = record c {
        database = db.rem key c.database;
        entries = remove_data key c.entries;
        lists = delete key.path c.lists;
      } in
      let m' : Memo D = record {
        database = db.rem key m.database;
        told = delete key m.told;
        listed = delete key.path m.listed;
      } in
      let after =
        rem-Agrees key c m (db.rem key c.database) (db.rem key m.database) (delete key.path c.lists)
          (delete key.path m.listed) (ap (λ x. db.rem key x) a.same)
          (ap (λ x. delete key.path x) a.lists) a in
      (
        some (if read_only then m else m'),
        (refl, refl),
        write_step (rem_cached db read_only key c) c c' m m' (λ e. ground arith)
            (λ e. ground (arith, o)) (o, a) (o, after),
      )
  call-Refines (clear path) c (some m) (o, a) =
      let c' : ReadCache D = record c {
        database = db.clear path c.database;
        entries = remove_path path c.entries;
        lists = delete path c.lists;
      } in
      let m' : Memo D = record {
        database = db.clear path m.database;
        told = path_left path m.told;
        listed = delete path m.listed;
      } in
      let after =
        clear-Agrees path c m (db.clear path c.database) (db.clear path m.database)
          (delete path c.lists) (delete path m.listed) (ap (λ x. db.clear path x) a.same)
          (ap (λ x. delete path x) a.lists) a in
      (
        some (if read_only then m else m'),
        (refl, refl),
        write_step (clear_cached db read_only path c) c c' m m' (λ e. ground arith)
            (λ e. ground (arith, o)) (o, a) (o, after),
      )
