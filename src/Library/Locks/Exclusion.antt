-- ===== src/Library/Locks/Exclusion.antt =====
-- locks.go: one writer for each key, and no lock left behind.
use mathlib.Core.Path.{subst}
use mathlib.Core.Option.{some-injective}
use tiramisu.Base.{
  ℕ, zero, suc, ◌+◌, ◌≡◌, ◌≢◌, refl, sym, ap, ◌∙◌, inl, inr, false, none, some, get_elem?,
  if◌then◌else◌, arith, Bool-cases,
}
use tiramisu.Base.Eq.{GoString, string_eq, ◌=?◌, =?_iff}
use tiramisu.Base.GoMap.{lookup, lookup-insert}
use tiramisu.Library.Locks.{
  KeyLocks, waiting_for, acquire_key, acquired, writing, released, is_gone, holds, conflict, Client,
  World, arrive, LockStep, arrives, granted, unlocks, leaves, LockReach, here, next,
}
use tiramisu.Library.Locks.Safe.{live, IsSafe, conflict_comm, move-IsSafe, leave-IsSafe}

waiting-acquire :
    (key k : GoString) (t : KeyLocks)
    → waiting_for k (acquire_key key t).0
      ≡ (if key =? k then waiting_for key t + 1 else waiting_for k t)
unfolding waiting_for acquire_key
waiting-acquire key k t =
    ground (arith, lookup-insert key k (waiting_for key t + 1) t.waiters, =?_iff key k)

locks-acquire :
    (key k : GoString) (t : KeyLocks)
    → lookup k (acquire_key key t).0.locks
      ≡ (if key =? k then some (acquire_key key t).1 else lookup k t.locks)
unfolding acquire_key
locks-acquire key k t = ground (arith, lookup-insert key k t.fresh t.locks, =?_iff key k)

acquire-same :
    (key : GoString) (lock : ℕ) (t : KeyLocks)
    → lookup key t.locks ≡ some lock
    → (acquire_key key t).1 ≡ lock
unfolding acquire_key
acquire-same key lock t h = ground arith

arrive-IsSafe : (w : World) (key : GoString) → IsSafe w → IsSafe (arrive key w)
arrive-IsSafe w key s =
    let t = w.table in
    record {
      registered = registered;
      counted =
          λ k. ground (arith, waiting-acquire key k t, s.counted k, s.counted key, =?_iff key k);
      dropped = λ k z. ground (arith, locks-acquire key k t, s.dropped k, =?_iff key k);
      exclusive = exclusive;
    }
  where
    registered :
        (i : ℕ) (c : Client)
        → get_elem? (arrive key w).clients i ≡ some c
        → is_gone c.phase ≡ false
        → lookup c.key (arrive key w).table.locks ≡ some c.lock
    registered zero c at g =
        subst (λ z. lookup z.key (arrive key w).table.locks ≡ some z.lock) (some-injective _ _ at)
          (ground (arith, locks-acquire key key w.table, =?_iff key key))
    registered (suc i) c at g = ground (
      arith,
      locks-acquire key c.key w.table,
      s.registered i c at g,
      =?_iff key c.key,
      acquire-same key c.lock w.table,
    )

    exclusive :
        (i j : ℕ) (c d : Client)
        → i ≢ j
        → get_elem? (arrive key w).clients i ≡ some c
        → get_elem? (arrive key w).clients j ≡ some d
        → c.lock ≡ d.lock
        → conflict c.phase d.phase ≡ false
    exclusive zero zero c d ne at at' l = absurd (ne refl)
    exclusive zero (suc j) c d ne at at' l =
        subst (λ z. conflict z.phase d.phase ≡ false) (some-injective _ _ at) refl
    exclusive (suc i) zero c d ne at at' l =
        subst (λ z. conflict c.phase z.phase ≡ false) (some-injective _ _ at')
          (conflict_comm c.phase acquired)
    exclusive (suc i) (suc j) c d ne at at' l = s.exclusive i j c d (λ e. ne (ap suc e)) at at' l

Step-IsSafe : {w v : World} → LockStep w v → IsSafe w → IsSafe v
Step-IsSafe {w} (arrives key) s = arrive-IsSafe w key s
Step-IsSafe {w} (granted i c phase at p h free) s =
    move-IsSafe w i c phase at (ground (arith, p)) (ground (arith, h)) free s
Step-IsSafe {w} (unlocks i c at h) s =
    move-IsSafe w i c released at (ground (arith, h)) refl (λ j d ne at' l. refl) s
Step-IsSafe {w} (leaves i c at p) s = leave-IsSafe w i c at (ground (arith, p)) s

Reach-IsSafe : {w : World} → LockReach w → IsSafe w
unfolding waiting_for lookup
Reach-IsSafe here = record {
  registered = λ i c at g. absurd (cc at);
  counted = λ key. refl;
  dropped = λ key z. refl;
  exclusive = λ i j c d ne at at' l. absurd (cc at);
}
Reach-IsSafe (next r st) = Step-IsSafe st (Reach-IsSafe r)

-- However the calls interleave, while one call holds the exclusive side of a key no other call holds
-- either side of the same key, though locks are dropped and made anew in between; and a key for which
-- every call has left has no lock in the table and no waiters.
pub locks_exclude :
    {w : World}
    → LockReach w
    → ((i j : ℕ) (c d : Client)
        → i ≢ j
        → get_elem? w.clients i ≡ some c
        → get_elem? w.clients j ≡ some d
        → c.key ≡ d.key
        → c.phase ≡ writing
        → holds d.phase ≡ false)
      × ((key : GoString)
          → live key w.clients ≡ 0
          → (lookup key w.table.locks ≡ none) × (waiting_for key w.table ≡ 0))
locks_exclude {w} r =
    let s = Reach-IsSafe r in
    (
      (λ i j c d ne at at' same w_c. elim (Bool-cases (holds d.phase)) [
        | inr e ↦ e
        | inl e ↦
            let reg = s.registered i c at (ground (arith, w_c)) in
            let reg' = s.registered j d at' (ground (arith, e)) in
            let one_lock : c.lock ≡ d.lock =
              some-injective _ _ (sym reg ∙ ap (λ k. lookup k w.table.locks) same ∙ reg') in
            let apart = s.exclusive i j c d ne at at' one_lock in
            absurd (ground (arith, apart, w_c, e))
      ]),
      λ key z. (s.dropped key z, s.counted key ∙ z),
    )
