-- ===== src/Library/Locks.antt =====
-- internal/library/locks.go: one lock for each key, made on demand and dropped with its last waiter. A lock
-- is an address. The RWMutex at it is known by the calls that hold it, as its documentation says.
pub mod Safe
pub mod Exclusion
use tiramisu.Base.{
  ℕ, ◌+◌, ◌-◌, ◌≡◌, ◌≢◌, Bool, true, false, not, ◌||◌, ◌⊎◌, Option, none, some, List, [], ◌∷◌,
  get_elem?, set, leb, if◌then◌else◌,
}
use tiramisu.Base.Eq.{GoString, string_eq}
use tiramisu.Base.GoMap.{Map, lookup, insert, delete}

pub record KeyLocks : Type 0 where
  pub locks : Map GoString ℕ
  pub waiters : Map GoString ℕ
  -- The next address.
  pub fresh : ℕ

unfoldable pub waiting_for : GoString → KeyLocks → ℕ
waiting_for key k = elim (lookup key k.waiters) [ none ↦ 0 | some n ↦ n ]

-- `acquire`: the state, and the lock.
unfoldable pub acquire_key : GoString → KeyLocks → KeyLocks × ℕ
unfolding waiting_for
acquire_key key k =
    let waiters = insert key (waiting_for key k + 1) k.waiters in
    elim (lookup key k.locks) [
      | some lock ↦ (record k { waiters = waiters }, lock)
      | none ↦ (
        record { locks = insert key k.fresh k.locks; waiters = waiters; fresh = k.fresh + 1 },
        k.fresh,
      )
    ]

-- `done`
unfoldable pub done_key : GoString → KeyLocks → KeyLocks
unfolding waiting_for
done_key key k =
    let n = waiting_for key k - 1 in
    if leb n 0
    then record k { waiters = delete key k.waiters; locks = delete key k.locks }
    else record k { waiters = insert key n k.waiters }

-- Where a call of `Lock`, `RLock` or `TryLock` stands: it has the lock's address, it holds the lock, it has
-- given the lock up, and it has called `done`.
pub data Phase : Type 0 where
  acquired writing reading released gone : Phase

abbrev pub is_gone : Phase → Bool
is_gone gone = true
is_gone _ = false

abbrev pub holds : Phase → Bool
holds writing = true
holds reading = true
holds _ = false

abbrev pub conflict : Phase → Phase → Bool
conflict writing writing = true
conflict writing reading = true
conflict reading writing = true
conflict _ _ = false

pub record Client : Type 0 where
  pub key : GoString
  pub lock : ℕ
  pub phase : Phase

pub record World : Type 0 where
  pub table : KeyLocks
  pub clients : List Client

-- What an RWMutex grants: no other call holds it in conflict.
abbrev pub Free : ℕ → Client → Phase → List Client → Type 0
Free i c phase clients =
    (j : ℕ) (d : Client)
    → i ≢ j
    → get_elem? clients j ≡ some d
    → c.lock ≡ d.lock
    → conflict phase d.phase ≡ false

abbrev pub arrive : GoString → World → World
arrive key w =
    let (table, lock) = acquire_key key w.table in
    record {
      table = table;
      clients = record { key = key; lock = lock; phase = acquired } ∷ w.clients;
    }

abbrev pub move : ℕ → Client → Phase → World → World
move i c phase w = record w { clients = set w.clients i (record c { phase = phase }) }

abbrev pub leave : ℕ → Client → World → World
leave i c w = record {
  table = done_key c.key w.table;
  clients = set w.clients i (record c { phase = gone });
}

-- A call arrives, gets the lock on one of its sides, gives it up, and leaves: after that, or where
-- `TryLock` did not get the lock.
pub data LockStep (w : World) : World → Type 0 where
  arrives : (key : GoString) → LockStep w (arrive key w)
  granted :
      (i : ℕ) (c : Client) (phase : Phase)
      → get_elem? w.clients i ≡ some c
      → c.phase ≡ acquired
      → holds phase ≡ true
      → Free i c phase w.clients
      → LockStep w (move i c phase w)
  unlocks :
      (i : ℕ) (c : Client)
      → get_elem? w.clients i ≡ some c
      → holds c.phase ≡ true
      → LockStep w (move i c released w)
  leaves :
      (i : ℕ) (c : Client)
      → get_elem? w.clients i ≡ some c
      → (c.phase ≡ released) ⊎ (c.phase ≡ acquired)
      → LockStep w (leave i c w)

abbrev pub empty_world : World
empty_world = record { table = record { locks = []; waiters = []; fresh = 0 }; clients = [] }

pub data LockReach : World → Type 0 where
  here : LockReach empty_world
  next : {w v : World} → LockReach w → LockStep w v → LockReach v
