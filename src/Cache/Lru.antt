-- ===== src/Cache/Lru.antt =====
-- internal/cache/lrucache.go: `simpleLRUCache`, one shard. The list elements live at addresses: the
-- map `items` leads from a key to an address, and `order` holds the elements from front to back
-- with what stands at each address. Times are nanoseconds and sizes non-negative byte counts. An
-- operation reads the clock once; `Get` is two steps, since it gives up the read lock in between.
pub mod Linked
pub mod Keeps
pub mod Valid
pub mod Reads
pub mod Room
use tiramisu.Base.{
  ℕ, zero, suc, ◌+◌, ◌-◌, ◌<◌, Bool, true, false, ◌&&◌, Option, none, some, List, [], ◌∷◌, length,
  ltb, ◌==◌, if◌then◌else◌,
}
use tiramisu.Base.Eq.{Eq, ◌=?◌, nat_eq}
use tiramisu.Base.GoMap.{Map, lookup, insert, delete}

pub record Entry (K V : Type 0) : Type 0 where
  pub key : K
  pub value : V
  pub size : ℕ
  pub expires_at : ℕ
  pub last_promoted : ℕ

pub record Lru (K V : Type 0) : Type 0 where
  pub capacity : ℕ
  pub current_size : ℕ
  pub ttl : ℕ
  pub items : Map K ℕ
  pub order : Map ℕ (Entry K V)
  -- The next address that `PushFront` allocates.
  pub fresh : ℕ

-- What the read half of `Get` leaves to do.
pub data Pending (V : Type 0) : Type 0 where
  miss : Pending V
  expired : Pending V
  promote : V → Pending V
  hit : V → Pending V

abbrev pub promote_after : ℕ
promote_after = 10000000000

module _ {K V : Type 0} ⦃e : Eq K⦄ where
  -- `newSimpleLRUCache`
  unfoldable pub new_simple_lru_cache : ℕ → ℕ → Lru K V
  new_simple_lru_cache capacity ttl = record {
    capacity = if capacity == 0 then 524288000 else capacity;
    current_size = 0;
    ttl = if ttl == 0 then 86400000000000 else ttl;
    items = [];
    order = [];
    fresh = 0;
  }

  -- `c.items[key]`, and the entry that its element holds.
  unfoldable pub find : K → Lru K V → Option (ℕ × Entry K V)
  find key c = elim (lookup key c.items) [
    | none ↦ none
    | some p ↦ elim (lookup p c.order) [ none ↦ none | some entry ↦ some (p, entry) ]
  ]

  -- `removeElement`
  unfoldable pub remove_element : ℕ → Entry K V → Lru K V → Lru K V
  remove_element p entry c = record c {
    items = delete entry.key c.items;
    order = delete p c.order;
    current_size = c.current_size - entry.size;
  }

  -- `MoveToFront`, with the entry's new content.
  unfoldable pub front : ℕ → Entry K V → Lru K V → Lru K V
  front p entry c = record c { order = (p, entry) ∷ delete p c.order }

  -- `Get` under the read lock.
  unfoldable pub get_read : K → ℕ → Lru K V → Pending V
  get_read key now c = elim (find key c) [
    | none ↦ miss
    | some (p, entry) ↦
        if ltb entry.expires_at now
        then expired
        else if ltb (entry.last_promoted + promote_after) now
        then promote entry.value
        else hit entry.value
  ]

  -- `Get` under the write lock, where it takes it.
  unfoldable pub get_write : K → Pending V → ℕ → Lru K V → Lru K V × Option V
  unfolding remove_element front
  get_write key miss now c = (c, none)
  get_write key expired now c =
      (elim (find key c) [ none ↦ c | some (p, entry) ↦ remove_element p entry c ], none)
  get_write key (promote v) now c = (
    elim (find key c) [
      | none ↦ c
      | some (p, entry) ↦ front p (record entry { last_promoted = now }) c
    ],
    some v,
  )
  get_write key (hit v) now c = (c, some v)

  -- `Get` when no other call comes in between.
  unfoldable pub get : K → ℕ → Lru K V → Lru K V × Option V
  unfolding get_read get_write
  get key now c = get_write key (get_read key now c) now c

  -- `Back`
  unfoldable pub back : Map ℕ (Entry K V) → Option (ℕ × Entry K V)
  back [] = none
  back ((p, entry) ∷ l) = elim l [ [] ↦ some (p, entry) | _ ∷ _ ↦ back l ]

  -- The loop that makes room; each round shortens the list, so its length is fuel enough.
  unfoldable pub evict : ℕ → ℕ → Lru K V → Lru K V
  unfolding remove_element back
  evict zero size c = c
  evict (suc fuel) size c = elim (back c.order) [
    | none ↦ c
    | some (p, entry) ↦
        let rest = evict fuel size (remove_element p entry c) in
        if ltb c.capacity (c.current_size + size) then rest else c
  ]

  unfoldable pub push_front : Entry K V → Lru K V → Lru K V
  push_front entry c = record c {
    order = (c.fresh, entry) ∷ c.order;
    items = insert entry.key c.fresh c.items;
    current_size = c.current_size + entry.size;
    fresh = c.fresh + 1;
  }

  unfoldable pub new_entry : K → V → ℕ → ℕ → Lru K V → Entry K V
  new_entry key value size now c = record {
    key = key;
    value = value;
    size = size;
    expires_at = now + c.ttl;
    last_promoted = now;
  }

  unfoldable pub put : K → V → ℕ → ℕ → Lru K V → Lru K V
  unfolding front evict push_front new_entry
  put key value size now c = elim (find key c) [
    | some (p, entry) ↦
        front p
          (record entry {
            value = value;
            size = size;
            expires_at = now + c.ttl;
            last_promoted = now;
          })
          (record c { current_size = c.current_size - entry.size + size })
    | none ↦ push_front (new_entry key value size now c) (evict (length c.order) size c)
  ]

  -- `Delete`: the new state, and whether the key was there.
  unfoldable pub delete_key : K → Lru K V → Lru K V × Bool
  unfolding remove_element
  delete_key key c = elim (find key c) [
    | none ↦ (c, false)
    | some (p, entry) ↦ (remove_element p entry c, true)
  ]

  -- The first loop of `CleanupExpired`, and the second.
  unfoldable pub expired_elements : ℕ → Map ℕ (Entry K V) → List (ℕ × Entry K V)
  expired_elements now [] = []
  expired_elements now ((p, entry) ∷ l) =
      if ltb entry.expires_at now
      then (p, entry) ∷ expired_elements now l
      else expired_elements now l

  unfoldable pub remove_elements : List (ℕ × Entry K V) → Lru K V → ℕ → Lru K V × ℕ
  unfolding remove_element
  remove_elements [] c removed = (c, removed)
  remove_elements ((p, entry) ∷ l) c removed =
      remove_elements l (remove_element p entry c) (removed + 1)

  unfoldable pub cleanup_expired : ℕ → Lru K V → Lru K V × ℕ
  unfolding expired_elements remove_elements
  cleanup_expired now c = remove_elements (expired_elements now c.order) c 0

  unfoldable pub len : Lru K V → ℕ
  len c = length c.order
