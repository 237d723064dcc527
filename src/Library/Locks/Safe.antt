-- ===== src/Library/Locks/Safe.antt =====
-- locks.go: what holds of the table and the calls at any time, and that a call keeps it.
use mathlib.Core.Path.{subst}
use mathlib.Core.Option.{some-injective}
use tiramisu.Base.{
  ℕ, zero, suc, ◌+◌, ◌-◌, ◌<◌, ◌≡◌, ◌≢◌, refl, sym, ap, ◌∙◌, inl, inr, false, not, ◌&&◌, ◌⊎◌, none,
  some, List, [], ◌∷◌, get_elem?, set, leb, if◌then◌else◌, arith,
}
use tiramisu.Base.Eq.{GoString, string_eq, ◌=?◌, =?_iff}
use tiramisu.Base.GoMap.{lookup, lookup-insert, lookup-delete}
use tiramisu.Library.Locks.{
  KeyLocks, waiting_for, done_key, Phase, gone, is_gone, conflict, Client, World, Free, move, leave,
}

abbrev pub one : GoString → Client → ℕ
one key c = if not (is_gone c.phase) && (c.key =? key) then 1 else 0

-- The calls for the key that have not left.
abbrev pub live : GoString → List Client → ℕ
live key [] = 0
live key (c ∷ cs) = one key c + live key cs

live-set :
    (key : GoString) (i : ℕ) (c d : Client) (cs : List Client)
    → get_elem? cs i ≡ some c
    → live key (set cs i d) + one key c ≡ live key cs + one key d
live-set key i c d [] h = absurd (cc h)
live-set key zero c d (x ∷ cs) h =
    let same : x ≡ c = some-injective _ _ h in
    subst (λ z. one key d + live key cs + one key z ≡ one key x + live key cs + one key d) same
      (omega arith)
live-set key (suc i) c d (x ∷ cs) h = omega (arith, live-set key i c d cs h)

live-pos :
    (i : ℕ) (c : Client) (cs : List Client)
    → get_elem? cs i ≡ some c
    → is_gone c.phase ≡ false
    → 0 < live c.key cs
live-pos i c [] h g = absurd (cc h)
live-pos zero c (x ∷ cs) h g =
    let same : x ≡ c = some-injective _ _ h in
    subst (λ z. 0 < one c.key z + live c.key cs) (sym same) (ground (arith, =?_iff c.key c.key))
live-pos (suc i) c (x ∷ cs) h g = omega (arith, live-pos i c cs h g)

-- The lock of each key with a live call stands in the table, the counts are right, a key without a
-- live call has no lock and no count, and no two calls hold one lock in conflict.
pub record IsSafe (w : World) : Type 0 where
  pub registered :
      (i : ℕ) (c : Client)
      → get_elem? w.clients i ≡ some c
      → is_gone c.phase ≡ false
      → lookup c.key w.table.locks ≡ some c.lock
  pub counted : (key : GoString) → waiting_for key w.table ≡ live key w.clients
  pub dropped : (key : GoString) → live key w.clients ≡ 0 → lookup key w.table.locks ≡ none
  pub exclusive :
      (i j : ℕ) (c d : Client)
      → i ≢ j
      → get_elem? w.clients i ≡ some c
      → get_elem? w.clients j ≡ some d
      → c.lock ≡ d.lock
      → conflict c.phase d.phase ≡ false

pub conflict_comm : (a b : Phase) → conflict a b ≡ conflict b a
conflict_comm a b = ground arith

-- What a write at one position leaves at another.
get-set :
    (cs : List Client) (i j : ℕ) (c d e : Client)
    → get_elem? cs i ≡ some c
    → get_elem? (set cs i d) j ≡ some e
    → ((i ≡ j) × (e ≡ d)) ⊎ ((i ≢ j) × (get_elem? cs j ≡ some e))
get-set [] i j c d e h g = absurd (cc h)
get-set (x ∷ cs) zero zero c d e h g = inl (refl, sym (some-injective _ _ g))
get-set (x ∷ cs) zero (suc j) c d e h g = inr ((λ q. absurd (omega (arith, q))), g)
get-set (x ∷ cs) (suc i) zero c d e h g = inr ((λ q. absurd (omega (arith, q))), g)
get-set (x ∷ cs) (suc i) (suc j) c d e h g = elim (get-set cs i j c d e h g) [
  | inl (p, q) ↦ inl (ap suc p, q)
  | inr (p, q) ↦ inr ((λ r. p (omega (arith, r))), q)
]

exclusive-set :
    (cs : List Client) (i : ℕ) (c d : Client)
    → get_elem? cs i ≡ some c
    → d.lock ≡ c.lock
    → Free i c d.phase cs
    → ((j k : ℕ) (x y : Client)
        → j ≢ k
        → get_elem? cs j ≡ some x
        → get_elem? cs k ≡ some y
        → x.lock ≡ y.lock
        → conflict x.phase y.phase ≡ false)
    → (j k : ℕ) (x y : Client) → j ≢ k
    → get_elem? (set cs i d) j ≡ some x
    → get_elem? (set cs i d) k ≡ some y
    → x.lock ≡ y.lock
    → conflict x.phase y.phase ≡ false
exclusive-set cs i c d h same free old j k x y ne g f l = elim (get-set cs i j c d x h g) [
  | inl (p, q) ↦ elim (get-set cs i k c d y h f) [
    | inl (r, _) ↦ absurd (ne (sym p ∙ r))
    | inr (r, at) ↦
        subst (λ z. conflict z.phase y.phase ≡ false) (sym q)
          (free k y r at (sym same ∙ ap (λ z. z.lock) (sym q) ∙ l))
  ]
  | inr (p, at_j) ↦ elim (get-set cs i k c d y h f) [
    | inl (r, q) ↦
        conflict_comm x.phase y.phase
        ∙ subst (λ z. conflict z.phase x.phase ≡ false) (sym q)
            (free j x p at_j (sym same ∙ ap (λ z. z.lock) (sym q) ∙ sym l))
    | inr (r, at_k) ↦ old j k x y ne at_j at_k l
  ]
]

pub move-IsSafe :
    (w : World) (i : ℕ) (c : Client) (phase : Phase)
    → get_elem? w.clients i ≡ some c
    → is_gone c.phase ≡ false
    → is_gone phase ≡ false
    → Free i c phase w.clients
    → IsSafe w
    → IsSafe (move i c phase w)
move-IsSafe w i c phase h g g' free s =
    let d : Client = record c { phase = phase } in
    let same : (key : GoString) → live key (set w.clients i d) ≡ live key w.clients =
      λ key. ground (arith, live-set key i c d w.clients h) in
    record {
      registered = λ j e at ng. elim (get-set w.clients i j c d e h at) [
        | inl (p, q) ↦
            subst (λ z. lookup z.key w.table.locks ≡ some z.lock) (sym q) (s.registered i c h g)
        | inr (p, at') ↦ s.registered j e at' ng
      ];
      counted = λ key. s.counted key ∙ sym (same key);
      dropped = λ key z. s.dropped key (sym (same key) ∙ z);
      exclusive = exclusive-set w.clients i c d h refl free s.exclusive;
    }

waiting-done :
    (key k : GoString) (t : KeyLocks)
    → waiting_for k (done_key key t) ≡ (if key =? k then waiting_for key t - 1 else waiting_for k t)
unfolding waiting_for done_key
waiting-done key k t =
    let n = waiting_for key t - 1 in
    ground (arith, lookup-delete key k t.waiters, lookup-insert key k n t.waiters, =?_iff key k)

locks-done :
    (key k : GoString) (t : KeyLocks)
    → lookup k (done_key key t).locks
      ≡ (if (key =? k) && leb (waiting_for key t - 1) 0 then none else lookup k t.locks)
unfolding waiting_for done_key
locks-done key k t = ground (arith, lookup-delete key k t.locks, =?_iff key k)

pub leave-IsSafe :
    (w : World) (i : ℕ) (c : Client)
    → get_elem? w.clients i ≡ some c
    → is_gone c.phase ≡ false
    → IsSafe w
    → IsSafe (leave i c w)
leave-IsSafe w i c h g s =
    let d : Client = record c { phase = gone } in
    let fewer : (key : GoString)
        → live key (set w.clients i d) + (if c.key =? key then 1 else 0) ≡ live key w.clients =
      λ key. ground (arith, live-set key i c d w.clients h) in
    record {
      registered = λ j e at ng. elim (get-set w.clients i j c d e h at) [
        | inl (p, q) ↦ absurd (cc (ap (λ z. is_gone z.phase) q, ng))
        | inr (p, at') ↦ ground (
          arith,
          locks-done c.key e.key w.table,
          s.registered j e at' ng,
          live-pos j e (set w.clients i d) at ng,
          fewer e.key,
          s.counted e.key,
          =?_iff c.key e.key,
          s.counted c.key,
          fewer c.key,
        )
      ];
      counted = λ key. ground (
        arith,
        waiting-done c.key key w.table,
        s.counted key,
        s.counted c.key,
        fewer key,
        =?_iff c.key key,
      );
      dropped = λ key z. ground (
        arith,
        locks-done c.key key w.table,
        s.counted key,
        s.counted c.key,
        fewer key,
        s.dropped key,
        =?_iff c.key key,
      );
      exclusive = exclusive-set w.clients i c d h refl (λ j e ne at l. refl) s.exclusive;
    }
