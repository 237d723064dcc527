-- ===== src/Syncer/Scheduler/Runs/One.antt =====
-- scheduler.go: a job's flag and its runs agree.
use tiramisu.Base.{
  ℕ, ◌+◌, ◌≤◌, ◌≡◌, refl, sym, ◌∙◌, ◌⊎◌, inl, inr, true, false, some, List, [], ◌∷◌, get_elem?, set,
  if◌then◌else◌, arith, Bool-cases, Option-cases,
}
use mathlib.Core.Path.{subst}
use tiramisu.Base.Eq.{GoString, str_eq, str_eq_iff, string_eq}
use tiramisu.Base.GoMap.{Map, lookup, insert, delete}
use tiramisu.Syncer.Scheduler.{
  Calendar, JobState, SchedulerConfig, should_run, tracker, set_running, set_status,
}
use tiramisu.Syncer.Scheduler.Runs.{
  spawned, registered, lowered, gone, JobRun, World, Outcome, status_of, known, spawn, trigger_run,
  tick_jobs, tick, register, lower, leave, stop_job, lower_all, new_scheduler, SchedulerStep,
  triggered, ticked, stopped, registers, lowers, leaves, SchedulerReach, fresh, next,
}
use tiramisu.Syncer.Scheduler.Runs.Flags.{
  one, live, flag, live-append, live-set, live-some, flag-set_running, flag-same,
  flag-update_next_runs,
}

should_run-idle :
    (cal : Calendar) (now : ℕ) (cfg : SchedulerConfig) (name : GoString)
    (store : Map GoString JobState)
    → should_run cal now cfg name (tracker name store) ≡ true
    → flag name store ≡ 0
unfolding should_run
should_run-idle cal now cfg name store h = elim (Bool-cases (tracker name store).running) [
  | inl e ↦ absurd (ground (arith, rw e at h))
  | inr e ↦ ground (arith, e)
]

module _ (jobs : List GoString) where
  -- A job has one live run if its flag is up, and none if it is not.
  abbrev pub IsOne : World → Type 0
  IsOne w = (name : GoString) → known name jobs ≡ true → live name w.runs ≡ flag name w.store

  spawn-IsOne :
      (name : GoString) (w : World) → flag name w.store ≡ 0 → IsOne w → IsOne (spawn name w)
  unfolding spawn
  spawn-IsOne name w idle v j k = elim (Bool-cases (str_eq name j)) [
    | inl e ↦
        let same : flag j w.store ≡ 0 =
          subst (λ n. flag n w.store ≡ 0) ((str_eq_iff name j).0 e) idle in
        ground (
          arith,
          live-append j w.runs (record { job = name; phase = spawned; cancelled = false }),
          v j k,
          same,
          e,
          flag-set_running true name j w.store,
        )
    | inr e ↦ ground (
      arith,
      live-append j w.runs (record { job = name; phase = spawned; cancelled = false }),
      v j k,
      e,
      flag-set_running true name j w.store,
    )
  ]

  trigger_run-IsOne : (name : GoString) (w : World) → IsOne w → IsOne (trigger_run jobs name w).0
  unfolding trigger_run
  trigger_run-IsOne name w v = elim (Bool-cases (known name jobs)) [
    | inr e ↦ rw (e, trigger_run) v
    | inl e ↦ elim (Bool-cases (tracker name w.store).running) [
      | inl r ↦ rw (e, trigger_run, r) v
      | inr r ↦ rw (e, trigger_run, r) (spawn-IsOne name w (ground (arith, r)) v)
    ]
  ]

  tick_jobs-IsOne :
      (cal : Calendar) (now : ℕ) (cfg : SchedulerConfig) (names : List GoString) (w : World)
      → IsOne w
      → IsOne (tick_jobs cal now cfg names w)
  unfolding tick_jobs
  tick_jobs-IsOne cal now cfg [] w v = v
  tick_jobs-IsOne cal now cfg (name ∷ names) w v =
      elim (Bool-cases (should_run cal now cfg name (tracker name w.store))) [
        | inl e ↦
            rw (e, tick_jobs)
              (tick_jobs-IsOne cal now cfg names (spawn name w)
                (spawn-IsOne name w (should_run-idle cal now cfg name w.store e) v))
        | inr e ↦ rw (e, tick_jobs) (tick_jobs-IsOne cal now cfg names w v)
      ]

  -- A run that changes its phase, with the flags that go with it.
  put_run-IsOne :
      (i : ℕ) (r s : JobRun) (w : World) (store : Map GoString JobState)
      → get_elem? w.runs i ≡ some r
      → ((j : GoString) → known j jobs ≡ true → one j r + flag j store ≡ one j s + flag j w.store)
      → IsOne w
      → (cancels : Map GoString ℕ)
      → IsOne (record { store = store; cancels = cancels; runs = set w.runs i s })
  put_run-IsOne i r s w store h change v cancels j k =
      omega (arith, live-set j w.runs i r s h, change j k, v j k)

  lower-IsOne :
      (now i : ℕ) (r : JobRun) (outcome : Outcome) (w : World)
      → get_elem? w.runs i ≡ some r
      → r.phase ≡ registered
      → IsOne w
      → IsOne (lower now i r outcome w)
  unfolding lower set_status
  lower-IsOne now i r outcome w h p v =
      put_run-IsOne i r (record r { phase = lowered }) w
        (set_status now (status_of outcome r.cancelled).0 (status_of outcome r.cancelled).1 r.job
          (set_running false r.job w.store))
        h change v w.cancels
    where
      kept_flag :
          (j : GoString) (n : ℕ)
          → n ≡ (if str_eq r.job j then 0 else flag j w.store)
          → one j r ≤ live j w.runs
          → live j w.runs ≡ flag j w.store
          → one j r + n ≡ one j (record r { phase = lowered }) + flag j w.store
      kept_flag j n e l q = elim (Bool-cases (str_eq r.job j)) [
        | inl b ↦ ground (arith, e, l, q, b, p)
        | inr b ↦ ground (arith, e, l, q, b, p)
      ]

      change :
          (j : GoString)
          → known j jobs ≡ true
          → one j r
              + flag j (
                  set_status now
                    (status_of outcome r.cancelled).0
                    (status_of outcome r.cancelled).1
                    r.job
                    (set_running false r.job w.store))
            ≡ one j (record r { phase = lowered }) + flag j w.store
      change j k =
          let status = status_of outcome r.cancelled in
          let lowered_store = set_running false r.job w.store in
          let kept : flag j (set_status now status.0 status.1 r.job lowered_store)
              ≡ flag j lowered_store =
            flag-same r.job j
              (record (tracker r.job lowered_store) {
                last_run = now;
                last_error = status.1;
                last_status = status.0;
              })
              lowered_store refl in
          let down = flag-set_running false r.job j w.store in
          let some_live = live-some j w.runs i r h in
          kept_flag j (flag j (set_status now status.0 status.1 r.job lowered_store)) (kept ∙ down)
            some_live (v j k)

  -- A change that keeps the job of a run, and whether it is live.
  same-IsOne :
      (i : ℕ) (r s : JobRun) (w : World)
      → get_elem? w.runs i ≡ some r
      → ((j : GoString) → one j r ≡ one j s)
      → IsOne w
      → (cancels : Map GoString ℕ)
      → IsOne (record { store = w.store; cancels = cancels; runs = set w.runs i s })
  same-IsOne i r s w h same v cancels =
      put_run-IsOne i r s w w.store h (λ j k. omega (arith, same j)) v cancels

  stop_job-IsOne : (name : GoString) (w : World) → IsOne w → IsOne (stop_job name w).0
  unfolding stop_job
  stop_job-IsOne name w v = elim (Option-cases (lookup name w.cancels)) [
    | inl e ↦ rw (e, stop_job) v
    | inr (i, e) ↦ elim (Option-cases (get_elem? w.runs i)) [
      | inl q ↦ rw (e, stop_job, q) v
      | inr (r, q) ↦
          rw (e, stop_job, q)
            (same-IsOne i r (record r { cancelled = true }) w q (λ j. refl) v w.cancels)
    ]
  ]

  lower_all-flag :
      (names : List GoString) (j : GoString) (store : Map GoString JobState)
      → (known j names ≡ true) ⊎ (flag j store ≡ 0)
      → flag j (lower_all names store) ≡ 0
  unfolding lower_all
  lower_all-flag [] j store (inl k) = absurd (cc k)
  lower_all-flag [] j store (inr z) = z
  lower_all-flag (name ∷ names) j store h =
      lower_all-flag names j (set_running false name store)
        (ground (arith, h, flag-set_running false name j store))

module _ (cal : Calendar) (cfg : SchedulerConfig) (called : GoString → GoString)
    (jobs : List GoString) where
  Step-IsOne :
      {w w' : World} → SchedulerStep cal cfg called jobs w w' → IsOne jobs w → IsOne jobs w'
  unfolding tick register leave
  Step-IsOne (triggered {w} name) v = trigger_run-IsOne jobs name w v
  Step-IsOne (ticked {w} now) v = λ j k.
      tick_jobs-IsOne jobs cal now cfg jobs w v j k
      ∙ sym (flag-update_next_runs cal now cfg jobs j (tick_jobs cal now cfg jobs w).store)
  Step-IsOne (stopped {w} name) v = stop_job-IsOne jobs name w v
  Step-IsOne (registers {w} i r h p) v =
      same-IsOne jobs i r (record r { phase = registered }) w h (λ j. ground (arith, p)) v
        (insert (called r.job) i w.cancels)
  Step-IsOne (lowers {w} now i r outcome h p) v = lower-IsOne jobs now i r outcome w h p v
  Step-IsOne (leaves {w} i r h p) v =
      same-IsOne jobs i r (record r { phase = gone }) w h (λ j. ground (arith, p)) v
        (delete (called r.job) w.cancels)

  -- From a new scheduler, whatever states its file held, every sequence of triggers, ticks, stops and
  -- steps of the runs, each in one piece, leads to a state where a job of the scheduler has one live run
  -- if its flag is up and none if it is not: no job ever runs twice at once.
  pub Reach-IsOne : (w : World) → SchedulerReach cal cfg called jobs w → IsOne jobs w
  unfolding new_scheduler
  Reach-IsOne w (fresh now loaded) = λ j k. sym (
      flag-update_next_runs cal now cfg jobs j (lower_all jobs loaded)
      ∙ lower_all-flag jobs jobs j loaded (inl k))
  Reach-IsOne w (next {w = v} reach step) = Step-IsOne step (Reach-IsOne v reach)
