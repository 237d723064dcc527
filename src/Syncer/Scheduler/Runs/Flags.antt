-- ===== src/Syncer/Scheduler/Runs/Flags.antt =====
-- scheduler.go: the live runs of a job, and its flag in the store.
use tiramisu.Base.{
  ℕ, zero, suc, ◌+◌, ◌≤◌, ◌≡◌, refl, ap, ◌∙◌, inl, inr, Bool, true, false, ◌&&◌, some, List, [],
  ◌∷◌, ◌++◌, get_elem?, set, if◌then◌else◌, ◌==◌, arith, Bool-cases,
}
use mathlib.Core.Option.{some-injective}
use tiramisu.Base.Eq.{GoString, str_eq, str_eq_iff, string_eq}
use tiramisu.Base.GoMap.{Map, lookup, insert, lookup-insert}
use tiramisu.Syncer.Scheduler.{
  Calendar, JobState, SchedulerConfig, or_zero, tracker, set_running, set_next_run, next_run_of,
  renew_next_run, update_next_runs,
}
use tiramisu.Syncer.Scheduler.Runs.{Phase, spawned, registered, JobRun}

abbrev is_live : Phase → Bool
is_live spawned = true
is_live registered = true
is_live _ = false

-- Whether a run is a live one of the job, as a number; and how many there are.
abbrev pub one : GoString → JobRun → ℕ
one name r = if str_eq r.job name && is_live r.phase then 1 else 0

abbrev pub live : GoString → List JobRun → ℕ
live name [] = 0
live name (r ∷ rs) = one name r + live name rs

abbrev pub flag : GoString → Map GoString JobState → ℕ
flag name store = if (tracker name store).running then 1 else 0

pub live-append :
    (name : GoString) (rs : List JobRun) (r : JobRun)
    → live name (rs ++ (r ∷ [])) ≡ live name rs + one name r
live-append name [] r = omega arith
live-append name (x ∷ rs) r = omega (arith, live-append name rs r)

pub live-set :
    (name : GoString) (rs : List JobRun) (i : ℕ) (r s : JobRun)
    → get_elem? rs i ≡ some r
    → live name (set rs i s) + one name r ≡ live name rs + one name s
live-set name [] i r s h = absurd (cc h)
live-set name (x ∷ rs) zero r s h =
    let same : one name x ≡ one name r = ap (one name) (some-injective _ _ h) in omega (arith, same)
live-set name (x ∷ rs) (suc i) r s h = omega (arith, live-set name rs i r s h)

pub live-some :
    (name : GoString) (rs : List JobRun) (i : ℕ) (r : JobRun)
    → get_elem? rs i ≡ some r
    → one name r ≤ live name rs
live-some name [] i r h = absurd (cc h)
live-some name (x ∷ rs) zero r h =
    let same : one name x ≡ one name r = ap (one name) (some-injective _ _ h) in omega (arith, same)
live-some name (x ∷ rs) (suc i) r h = omega (arith, live-some name rs i r h)

tracker-insert :
    (n j : GoString) (s : JobState) (store : Map GoString JobState)
    → tracker j (insert n s store) ≡ (if str_eq n j then s else tracker j store)
unfolding tracker
tracker-insert n j s store = ap or_zero (lookup-insert n j s store) ∙ chosen (str_eq n j)
  where
    chosen :
        (b : Bool)
        → or_zero (if b then some s else lookup j store)
          ≡ (if b then s else or_zero (lookup j store))
    chosen true = refl
    chosen false = refl

-- Only the flag of the stored state matters.
pub flag-insert :
    (n j : GoString) (s : JobState) (store : Map GoString JobState)
    → flag j (insert n s store)
      ≡ (if str_eq n j then (if s.running then 1 else 0) else flag j store)
flag-insert n j s store = ground (arith, ap (λ x. x.running) (tracker-insert n j s store))

pub flag-set_running :
    (b : Bool) (n j : GoString) (store : Map GoString JobState)
    → flag j (set_running b n store) ≡ (if str_eq n j then (if b then 1 else 0) else flag j store)
unfolding set_running
flag-set_running b n j store = flag-insert n j (record (tracker n store) { running = b }) store

-- A state with the flag as it was leaves every flag.
pub flag-same :
    (n j : GoString) (s : JobState) (store : Map GoString JobState)
    → s.running ≡ (tracker n store).running
    → flag j (insert n s store) ≡ flag j store
flag-same n j s store h = elim (Bool-cases (str_eq n j)) [
  | inl e ↦
      let same : n ≡ j = (str_eq_iff n j).0 e in
      let there : (tracker n store).running ≡ (tracker j store).running =
        ap (λ x. (tracker x store).running) same in
      flag-insert n j s store ∙ ground (arith, e, h, there)
  | inr e ↦ flag-insert n j s store ∙ ground (arith, e)
]

flag-renew_next_run :
    (cal : Calendar) (now : ℕ) (cfg : SchedulerConfig) (n j : GoString)
    (store : Map GoString JobState)
    → flag j (renew_next_run cal now cfg n store) ≡ flag j store
unfolding renew_next_run set_next_run
flag-renew_next_run cal now cfg n j store =
    elim (Bool-cases (next_run_of cal now cfg n (tracker n store) == (tracker n store).next_run)) [
      | inl e ↦ rw e (flag-same n j (tracker n store) store refl)
      | inr e ↦ rw e (
          flag-same n j
            (record (tracker n store) { next_run = next_run_of cal now cfg n (tracker n store) })
            store refl)
    ]

pub flag-update_next_runs :
    (cal : Calendar) (now : ℕ) (cfg : SchedulerConfig) (names : List GoString) (j : GoString)
    (store : Map GoString JobState)
    → flag j (update_next_runs cal now cfg names store) ≡ flag j store
unfolding update_next_runs
flag-update_next_runs cal now cfg [] j store = refl
flag-update_next_runs cal now cfg (name ∷ names) j store =
    flag-update_next_runs cal now cfg names j (renew_next_run cal now cfg name store)
    ∙ flag-renew_next_run cal now cfg name j store
