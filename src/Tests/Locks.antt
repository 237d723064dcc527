-- ===== src/Tests/Locks.antt =====
-- locks.go: two calls for one key.
use tiramisu.Base.{ℕ, zero, suc, ◌≡◌, ◌≢◌, refl, false, none, some, get_elem?, arith}
use tiramisu.Base.Eq.{GoString, codes, string_eq, str_eq}
use tiramisu.Base.GoMap.{lookup, insert}
use tiramisu.Library.Locks.{
  waiting_for, acquired, writing, holds, conflict, Client, World, arrive, move, LockReach, here,
  next, arrives, granted, empty_world,
}
use tiramisu.Library.Locks.Safe.{live}
use tiramisu.Library.Locks.Exclusion.{locks_exclude}

abbrev arrived : World
arrived = arrive (codes "h") (arrive (codes "h") empty_world)

abbrev first_call : Client
first_call = record { key = codes "h"; lock = 0; phase = acquired }

-- The call that came first gets the exclusive side; the other one waits.
abbrev locked : World
locked = move 1 first_call writing arrived

Reach-locked : LockReach locked
unfolding tiramisu.Library.Locks.acquire_key lookup waiting_for insert str_eq
Reach-locked =
    next (next (next here (arrives (codes "h"))) (arrives (codes "h")))
      (granted 1 first_call writing refl refl refl free)
  where
    free :
        (j : ℕ) (d : Client)
        → 1 ≢ j
        → get_elem? arrived.clients j ≡ some d
        → 0 ≡ d.lock
        → conflict writing d.phase ≡ false
    free zero d ne at l = ground (arith, at)
    free (suc zero) d ne at l = absurd (ne refl)
    free (suc (suc j)) d ne at l = absurd (cc at)

locks_exclude_example :
    ((i j : ℕ) (c d : Client)
      → i ≢ j
      → get_elem? locked.clients i ≡ some c
      → get_elem? locked.clients j ≡ some d
      → c.key ≡ d.key
      → c.phase ≡ writing
      → holds d.phase ≡ false)
    × ((key : GoString)
        → live key locked.clients ≡ 0
        → (lookup key locked.table.locks ≡ none) × (waiting_for key locked.table ≡ 0))
locks_exclude_example = locks_exclude Reach-locked
