-- ===== src/Syncer/Scheduler/Runs/Races.antt =====
-- scheduler.go: calls whose parts are not one step.
use tiramisu.Base.{
  ℕ, zero, suc, ◌+◌, ◌≡◌, refl, ap, ◌∙◌, true, false, none, some, List, [], ◌∷◌, ◌++◌, length,
  get_elem?, set, arith,
}
use tiramisu.Base.Eq.{GoString, str_eq_iff, string_eq, =?_iff}
use tiramisu.Base.GoMap.{lookup, insert, delete, lookup-delete}
use tiramisu.Syncer.Scheduler.{tracker}
use tiramisu.Syncer.Scheduler.Runs.{
  spawned, gone, registered, lowered, JobRun, World, started, not_running, known, spawn,
  trigger_run, register, leave, stop_job,
}
use tiramisu.Syncer.Scheduler.Runs.Flags.{live, live-append, live-set}
use tiramisu.Syncer.Scheduler.Runs.One.{IsOne}

abbrev pub new_run : GoString → JobRun
new_run name = record { job = name; phase = spawned; cancelled = false }

live-spawn : (name : GoString) (w : World) → live name (spawn name w).runs ≡ live name w.runs + 1
unfolding spawn
live-spawn name w =
    live-append name w.runs (new_run name) ∙ ground (arith, (str_eq_iff name name).1 refl)

set_last : (rs : List JobRun) (x y : JobRun) → set (rs ++ (x ∷ [])) (length rs) y ≡ rs ++ (y ∷ [])
set_last [] x y = refl
set_last (r ∷ rs) x y = ap (λ l. r ∷ l) (set_last rs x y)

get_left :
    (rs : List JobRun) (i : ℕ) (r x : JobRun)
    → get_elem? rs i ≡ some r
    → get_elem? (rs ++ (x ∷ [])) i ≡ some r
get_left [] i r x h = absurd (cc h)
get_left (s ∷ rs) zero r x h = h
get_left (s ∷ rs) (suc i) r x h = get_left rs i r x h

module _ (jobs : List GoString) (name : GoString) (w : World) where
  -- Of an idle job of the scheduler, two triggers that both read its flag before either raises it are both
  -- started: the job then has two live runs.
  pub spawn_twice :
      known name jobs ≡ true
      → (tracker name w.store).running ≡ false
      → IsOne jobs w
      → (trigger_run jobs name w ≡ (spawn name w, started))
        × (live name (spawn name (spawn name w)).runs ≡ 2)
  unfolding trigger_run
  spawn_twice k idle v = (
    ground (arith, k, idle),
    live-spawn name (spawn name w) ∙ ground (arith, live-spawn name w, v name k, idle),
  )

  -- A run that has lowered its job's flag, and runs its deferred call after the next run of the job has
  -- registered, takes away that run's cancel function: the job runs, and a stop answers that it does not.
  pub leave-stop_job :
      (called : GoString → GoString) (i : ℕ) (r : JobRun)
      → r.job ≡ name
      → r.phase ≡ lowered
      → get_elem? w.runs i ≡ some r
      → known name jobs ≡ true
      → (tracker name w.store).running ≡ false
      → IsOne jobs w
      → let after =
          leave called i r (register called (length w.runs) (new_run name) (spawn name w)) in
        (live name after.runs ≡ 1) × ((stop_job (called name) after).1 ≡ not_running)
  unfolding leave register stop_job spawn
  leave-stop_job called i r job down there k idle v =
      let waiting = record (new_run name) { phase = registered } in
      let gone_run = record r { phase = gone } in
      let placed = set_last w.runs (new_run name) waiting in
      let count =
        live-set name (w.runs ++ (waiting ∷ [])) i r gone_run (get_left w.runs i r waiting there) in
      let more = live-append name w.runs waiting in
      let named = (str_eq_iff name name).1 refl in
      let before : live name w.runs ≡ 0 = v name k ∙ ground (arith, idle) in
      let removed : lookup (called name)
            (delete (called r.job) (insert (called name) (length w.runs) w.cancels))
          ≡ none =
        lookup-delete (called r.job) (called name) (insert (called name) (length w.runs) w.cancels)
        ∙ ground (arith, (=?_iff (called r.job) (called name)).1 (ap called job)) in
      (
        ap (λ l. live name (set l i gone_run)) placed
            ∙ ground (arith, count, more, named, before, down),
        ground (arith, removed),
      )
