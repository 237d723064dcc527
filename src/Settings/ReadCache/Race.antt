-- ===== src/Settings/ReadCache/Race.antt =====
-- dbreadcache.go: a write between the two locks of `Get`.
use tiramisu.Base.{
  ℕ, zero, suc, ◌<◌, ◌≡◌, refl, sym, ap, ◌∙◌, inl, inr, true, false, ◌&&◌, some, List, [], ◌∷◌,
  length, ltb, arith, Bool-cases, Option-cases,
}
use tiramisu.Base.GoMap.{Map, lookup, delete}
use tiramisu.Base.Eq.{=?_iff}
use tiramisu.Settings.DataLru.{
  DataKey, data_key_eq, DataLru, without_back, evict_oldest, trim_data, put_front, put_data,
}
use tiramisu.Settings.DataLru.Bytes.{get_data_hit}
use tiramisu.Settings.ReadCache.{GoStormDb, ReadCache, fill, get_cached, set_cached}

without_back-front :
    (e : DataKey × List ℕ) (l : Map DataKey (List ℕ))
    → 1 < length (e ∷ l)
    → without_back (e ∷ l) ≡ e ∷ without_back l
unfolding without_back
without_back-front e [] h = absurd (omega (arith, h))
without_back-front e (f ∷ l) h = refl

-- The eviction never takes the front.
trim_data-front :
    (fuel : ℕ) (c : DataLru) (e : DataKey × List ℕ) (l : Map DataKey (List ℕ))
    → c.order ≡ e ∷ l
    → (rest : Map DataKey (List ℕ)) × ((trim_data fuel c).order ≡ e ∷ rest)
unfolding trim_data evict_oldest
trim_data-front zero c e l h = (l, h)
trim_data-front (suc fuel) c e l h =
    elim (Bool-cases (ltb c.limit c.bytes && ltb 1 (length c.order))) [
      | inl b ↦
          rw (b, trim_data) (trim_data-front fuel (evict_oldest c) e (without_back l) (shorter b))
      | inr b ↦ rw (b, trim_data) (l, h)
    ]
  where
    shorter :
        (ltb c.limit c.bytes && ltb 1 (length c.order)) ≡ true
        → (evict_oldest c).order ≡ e ∷ without_back l
    shorter b = ap without_back h ∙ without_back-front e l (ground (arith, b, sym (ap length h)))

put_front-front :
    (key : DataKey) (val : List ℕ) (c : DataLru)
    → (l : Map DataKey (List ℕ)) × ((put_front key val c).order ≡ (key, val) ∷ l)
unfolding put_front
put_front-front key val c = elim (Option-cases (lookup key c.order)) [
  | inl e ↦ rw (e, put_front) (c.order, refl)
  | inr (old, e) ↦ rw (e, put_front) (delete key c.order, refl)
]

put_data_hit :
    (key : DataKey) (val : List ℕ) (c : DataLru) → lookup key (put_data key val c).order ≡ some val
unfolding put_data lookup
put_data_hit key val c =
    let front = put_front-front key val c in
    let kept =
      trim_data-front (length (put_front key val c).order) (put_front key val c) (key, val) front.0
        front.1 in
    rw kept.1 (ground (arith, =?_iff key key))

module _ {D : Type 0} (db : GoStormDb D) where
  -- On an open cache that is not read-only, in front of a database that takes the new value, a `Get` that read the database before a `Set` of the same
  -- record and stores what it read after it leaves the old value in the cache: the next `Get` answers with it,
  -- though the database has the new one.
  pub set_between-fill :
      (key : DataKey) (val : List ℕ) (c : ReadCache D)
      → c.closed ≡ false
      → db.get key (db.set key val c.database) ≡ val
      → ((get_cached db key (fill db key (db.get key c.database) (set_cached db false key val c))).1
          ≡ db.get key c.database)
        × (db.get key (fill db key (db.get key c.database) (set_cached db false key val c)).database
            ≡ val)
  unfolding fill get_cached set_cached
  set_between-fill key val c open_ holds =
      let w = set_cached db false key val c in
      let old = db.get key c.database in
      let hit = get_data_hit key (put_data key old w.entries) ∙ put_data_hit key old w.entries in
      (ground (arith, open_, hit), ground (arith, open_, holds))
