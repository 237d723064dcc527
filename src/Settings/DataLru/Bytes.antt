-- ===== src/Settings/DataLru/Bytes.antt =====
-- datalru.go: the count of the bytes, and the bound.
use tiramisu.Base.{
  ℕ, zero, suc, ◌+◌, ◌-◌, ◌≤◌, ◌<◌, ◌≡◌, ◌≢◌, refl, ap, ◌∙◌, ◌⊎◌, inl, inr, ◌&&◌, none, some, List,
  [], ◌∷◌, length, ltb, arith, Bool-cases, Option-cases,
}
use mathlib.Core.Path.{subst}
use tiramisu.Base.Eq.{GoString, str_eq, str_eq_iff, string_eq, =?_iff}
use tiramisu.Base.GoMap.{Map, lookup, delete, Unique, lookup-delete, delete-Unique, delete_absent}
use tiramisu.Settings.DataLru.{
  DataKey, data_key_eq, DataLru, get_data, back_size, without_back, evict_oldest, trim_data,
  put_front, put_data, remove_data, path_left, path_bytes, remove_path,
}

abbrev pub total : Map DataKey (List ℕ) → ℕ
total [] = 0
total ((key, val) ∷ l) = length val + total l

-- Each key stands there once, and the count is the sum of the sizes.
pub record IsValid (c : DataLru) : Type 0 where
  pub keys : Unique c.order
  pub counted : c.bytes ≡ total c.order

total-delete :
    (key : DataKey) (val : List ℕ) (l : Map DataKey (List ℕ))
    → Unique l
    → lookup key l ≡ some val
    → total (delete key l) + length val ≡ total l
unfolding lookup delete
total-delete key val [] u h = absurd (cc h)
total-delete key val ((k, v) ∷ l) u h =
    ground (arith, =?_iff k key, delete_absent k l u.0, total-delete key val l u.1)

lookup-without_back :
    (key : DataKey) (l : Map DataKey (List ℕ))
    → lookup key l ≡ none
    → lookup key (without_back l) ≡ none
unfolding lookup without_back
lookup-without_back key [] h = refl
lookup-without_back key ((k, v) ∷ []) h = refl
lookup-without_back key ((k, v) ∷ e ∷ l) h = ground (arith, lookup-without_back key (e ∷ l))

pub without_back-some :
    (key : DataKey) (val : List ℕ) (l : Map DataKey (List ℕ))
    → lookup key (without_back l) ≡ some val
    → lookup key l ≡ some val
unfolding lookup without_back
without_back-some key val [] h = h
without_back-some key val ((k, v) ∷ []) h = absurd (cc h)
without_back-some key val ((k, v) ∷ e ∷ l) h = ground (arith, without_back-some key val (e ∷ l))

without_back-Unique : (l : Map DataKey (List ℕ)) → Unique l → Unique (without_back l)
unfolding without_back
without_back-Unique [] u = tt
without_back-Unique ((k, v) ∷ []) u = tt
without_back-Unique ((k, v) ∷ e ∷ l) u =
    (lookup-without_back k (e ∷ l) u.0, without_back-Unique (e ∷ l) u.1)

total-without_back : (l : Map DataKey (List ℕ)) → total (without_back l) + back_size l ≡ total l
unfolding without_back back_size
total-without_back [] = refl
total-without_back ((k, v) ∷ []) = omega arith
total-without_back ((k, v) ∷ e ∷ l) = omega (arith, total-without_back (e ∷ l))

length-without_back :
    (e : DataKey × List ℕ) (l : Map DataKey (List ℕ)) → length (without_back (e ∷ l)) ≡ length l
unfolding without_back
length-without_back e [] = refl
length-without_back e (f ∷ l) = ap suc (length-without_back f l)

evict_oldest-IsValid : (c : DataLru) → IsValid c → IsValid (evict_oldest c)
unfolding evict_oldest
evict_oldest-IsValid c v = record {
  keys = without_back-Unique c.order v.keys;
  counted = omega (arith, v.counted, total-without_back c.order);
}

-- The loop ends within the limit or at one element, and keeps what holds of the list.
trim_data-IsValid :
    (fuel : ℕ) (c : DataLru)
    → length c.order ≤ fuel
    → IsValid c
    → IsValid (trim_data fuel c)
      × (((trim_data fuel c).bytes ≤ c.limit) ⊎ (length (trim_data fuel c).order ≤ 1))
      × ((trim_data fuel c).limit ≡ c.limit)
unfolding trim_data
trim_data-IsValid zero c h v = (v, inr (omega (arith, h)), refl)
trim_data-IsValid (suc fuel) c h v =
    elim (Bool-cases (ltb c.limit c.bytes && ltb 1 (length c.order))) [
      | inl e ↦
          rw (e, trim_data)
            (trim_data-IsValid fuel (evict_oldest c) (shorter c.order h (ground (arith, e)))
              (evict_oldest-IsValid c v))
      | inr e ↦ rw (e, trim_data) (v, ground (arith, e), refl)
    ]
  where
    shorter :
        (l : Map DataKey (List ℕ))
        → length l ≤ suc fuel
        → 1 < length l
        → length (without_back l) ≤ fuel
    shorter [] h g = absurd (omega arith)
    shorter (e ∷ l) h g = omega (arith, length-without_back e l)

trim_data-some :
    (fuel : ℕ) (c : DataLru) (key : DataKey) (val : List ℕ)
    → lookup key (trim_data fuel c).order ≡ some val
    → lookup key c.order ≡ some val
unfolding trim_data evict_oldest
trim_data-some zero c key val h = h
trim_data-some (suc fuel) c key val h =
    elim (Bool-cases (ltb c.limit c.bytes && ltb 1 (length c.order))) [
      | inl e ↦
          without_back-some key val c.order
            (trim_data-some fuel (evict_oldest c) key val (rw (e, trim_data) at h))
      | inr e ↦ rw (e, trim_data) at h
    ]

front-IsValid :
    (key : DataKey) (val : List ℕ) (n : ℕ) (c : DataLru)
    → IsValid c
    → n ≡ total (delete key c.order) + length val
    → IsValid (record c { bytes = n; order = (key, val) ∷ delete key c.order })
front-IsValid key val n c v e = record {
  keys = (
    ground (arith, lookup-delete key key c.order, =?_iff key key),
    delete-Unique key c.order v.keys,
  );
  counted = omega (arith, e);
}

pub get_data-IsValid : (key : DataKey) (c : DataLru) → IsValid c → IsValid (get_data key c).0
unfolding get_data
get_data-IsValid key c v = elim (Option-cases (lookup key c.order)) [
  | inl e ↦ rw (e, get_data) v
  | inr (val, e) ↦
      rw (e, get_data)
        (front-IsValid key val c.bytes c v
          (omega (arith, v.counted, total-delete key val c.order v.keys e)))
]

put_front-IsValid :
    (key : DataKey) (val : List ℕ) (c : DataLru)
    → IsValid c
    → IsValid (put_front key val c) × ((put_front key val c).limit ≡ c.limit)
unfolding put_front
put_front-IsValid key val c v = elim (Option-cases (lookup key c.order)) [
  | inl e ↦
      rw (e, put_front) (record { keys = (e, v.keys); counted = omega (arith, v.counted) }, refl)
  | inr (old, e) ↦
      rw (e, put_front)
        (
          front-IsValid key val (c.bytes + length val - length old) c v
              (omega (arith, v.counted, total-delete key old c.order v.keys e)),
          refl,
        )
]

-- A store counts right, and ends within the limit or with one entry.
pub put_data-IsValid :
    (key : DataKey) (val : List ℕ) (c : DataLru)
    → IsValid c
    → IsValid (put_data key val c)
      × (((put_data key val c).bytes ≤ c.limit) ⊎ (length (put_data key val c).order ≤ 1))
      × ((put_data key val c).limit ≡ c.limit)
unfolding put_data
put_data-IsValid key val c v =
    let c' = put_front key val c in
    let front = put_front-IsValid key val c v in
    let t = trim_data-IsValid (length c'.order) c' (omega arith) front.0 in
    (
      t.0,
      subst (λ n. ((put_data key val c).bytes ≤ n) ⊎ (length (put_data key val c).order ≤ 1))
          front.1 t.1,
      t.2 ∙ front.1,
    )

put_front-some :
    (key k : DataKey) (val w : List ℕ) (c : DataLru)
    → lookup k (put_front key val c).order ≡ some w
    → (key ≡ k) × (w ≡ val) ⊎ (key ≢ k) × (lookup k c.order ≡ some w)
unfolding put_front lookup
put_front-some key k val w c h = ground (arith, h, =?_iff key k, lookup-delete key k c.order)

-- What is found after a store is what was stored, or was there before under another key.
pub put_data-some :
    (key k : DataKey) (val w : List ℕ) (c : DataLru)
    → lookup k (put_data key val c).order ≡ some w
    → (key ≡ k) × (w ≡ val) ⊎ (key ≢ k) × (lookup k c.order ≡ some w)
unfolding put_data
put_data-some key k val w c h =
    let c' = put_front key val c in
    put_front-some key k val w c (trim_data-some (length c'.order) c' k w h)

pub get_data-some :
    (key k : DataKey) (w : List ℕ) (c : DataLru)
    → lookup k (get_data key c).0.order ≡ some w
    → lookup k c.order ≡ some w
unfolding get_data lookup
get_data-some key k w c h = ground (arith, =?_iff key k, lookup-delete key k c.order)

pub remove_data-IsValid : (key : DataKey) (c : DataLru) → IsValid c → IsValid (remove_data key c)
unfolding remove_data
remove_data-IsValid key c v = elim (Option-cases (lookup key c.order)) [
  | inl e ↦ rw (e, remove_data) v
  | inr (val, e) ↦
      rw (e, remove_data)
        (record {
          keys = delete-Unique key c.order v.keys;
          counted = omega (arith, v.counted, total-delete key val c.order v.keys e);
        })
]

pub remove_data-some :
    (key k : DataKey) (w : List ℕ) (c : DataLru)
    → lookup k (remove_data key c).order ≡ some w
    → (key ≢ k) × (lookup k c.order ≡ some w)
unfolding remove_data
remove_data-some key k w c h = ground (arith, =?_iff key k, lookup-delete key k c.order)

pub path_left-some :
    (path : GoString) (k : DataKey) (w : List ℕ) (l : Map DataKey (List ℕ))
    → Unique l
    → lookup k (path_left path l) ≡ some w
    → (k.path ≢ path) × (lookup k l ≡ some w)
unfolding lookup path_left
path_left-some path k w [] u h = absurd (cc h)
path_left-some path k w ((j, v) ∷ l) u h =
    ground (arith, =?_iff j k, str_eq_iff j.path path, path_left-some path k w l u.1)

path_left-none :
    (path : GoString) (k : DataKey) (l : Map DataKey (List ℕ))
    → lookup k l ≡ none
    → lookup k (path_left path l) ≡ none
unfolding lookup path_left
path_left-none path k [] h = refl
path_left-none path k ((j, v) ∷ l) h = ground (arith, path_left-none path k l)

path_left-Unique :
    (path : GoString) (l : Map DataKey (List ℕ)) → Unique l → Unique (path_left path l)
unfolding path_left
path_left-Unique path [] u = tt
path_left-Unique path ((k, v) ∷ l) u =
    ground (arith, path_left-none path k l u.0, path_left-Unique path l u.1)

path_bytes-total :
    (path : GoString) (l : Map DataKey (List ℕ)) (n : ℕ)
    → path_bytes path l (total l + n) ≡ total (path_left path l) + n
unfolding path_bytes path_left
path_bytes-total path [] n = refl
path_bytes-total path ((k, v) ∷ l) n = elim (Bool-cases (str_eq k.path path)) [
  | inl e ↦
      let less : length v + total l + n - length v ≡ total l + n = omega arith in
      rw (e, path_bytes, less) (path_bytes-total path l n)
  | inr e ↦
      let more : length v + total l + n ≡ total l + (length v + n) = omega arith in
      rw (e, path_bytes, more) (ground (arith, path_bytes-total path l (length v + n)))
]

pub remove_path-IsValid : (path : GoString) (c : DataLru) → IsValid c → IsValid (remove_path path c)
unfolding remove_path
remove_path-IsValid path c v = record {
  keys = path_left-Unique path c.order v.keys;
  counted =
      let e : c.bytes ≡ total c.order + 0 = omega (arith, v.counted) in
      rw e (path_bytes-total path c.order 0 ∙ omega arith);
}

-- A read answers with what the list holds.
pub get_data_hit : (key : DataKey) (c : DataLru) → (get_data key c).1 ≡ lookup key c.order
unfolding get_data
get_data_hit key c = ground arith
