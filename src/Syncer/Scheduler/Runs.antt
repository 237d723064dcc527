-- ===== src/Syncer/Scheduler/Runs.antt =====
-- scheduler.go: the runs of the jobs. A goroutine of `runJob` is a place in a list; `Save`, which writes the
-- states to the disk, changes nothing here. A tick and a trigger are one step each.
pub mod Flags
pub mod One
pub mod Races
use tiramisu.Base.{
  ℕ, zero, suc, ◌+◌, ◌≤◌, ◌<◌, ◌≡◌, Bool, true, false, not, ◌&&◌, ◌||◌, Option, none, some, List,
  [], ◌∷◌, ◌++◌, length, get_elem?, set, if◌then◌else◌,
}
use tiramisu.Base.Eq.{GoString, codes, str_eq, string_eq}
use tiramisu.Base.GoMap.{Map, lookup, insert, delete}
use tiramisu.Syncer.Scheduler.{
  Calendar, JobState, SchedulerConfig, should_run, tracker, set_running, set_status,
  update_next_runs,
}

-- A run is started, has registered its cancel function, has lowered the job's flag, or has ended.
pub data Phase : Type 0 where
  spawned registered lowered gone : Phase

pub record JobRun : Type 0 where
  pub job : GoString
  pub phase : Phase
  pub cancelled : Bool

pub record World : Type 0 where
  pub store : Map GoString JobState
  pub cancels : Map GoString ℕ
  pub runs : List JobRun

pub data TriggerResult : Type 0 where
  started unknown_job already_running : TriggerResult

pub data StopResult : Type 0 where
  stopping not_running : StopResult

-- How `Run` of an engine returns: with an error, without one, or in a panic.
pub data Outcome : Type 0 where
  fine : Outcome
  with_error panicked : GoString → Outcome

abbrev pub known : GoString → List GoString → Bool
known name [] = false
known name (j ∷ js) = str_eq j name || known name js

-- `SetRunning(true)` and the start of the goroutine.
unfoldable pub spawn : GoString → World → World
unfolding set_running
spawn name w = record w {
  store = set_running true name w.store;
  runs = w.runs ++ (record { job = name; phase = spawned; cancelled = false } ∷ []);
}

unfoldable pub trigger_run : List GoString → GoString → World → World × TriggerResult
unfolding spawn tracker
trigger_run jobs name w =
    if not (known name jobs)
    then (w, unknown_job)
    else if (tracker name w.store).running
    then (w, already_running)
    else (spawn name w, started)

-- The loop of `tick`.
unfoldable pub tick_jobs : Calendar → ℕ → SchedulerConfig → List GoString → World → World
unfolding spawn tracker should_run
tick_jobs cal now cfg [] w = w
tick_jobs cal now cfg (name ∷ names) w =
    let due = should_run cal now cfg name (tracker name w.store) in
    tick_jobs cal now cfg names (if due then spawn name w else w)

unfoldable pub tick : Calendar → ℕ → SchedulerConfig → List GoString → World → World
unfolding tick_jobs update_next_runs
tick cal now cfg jobs w =
    let w' = tick_jobs cal now cfg jobs w in
    record w' { store = update_next_runs cal now cfg jobs w'.store }

abbrev put_run : ℕ → JobRun → World → World
put_run i r w = record w { runs = set w.runs i r }

-- `runJob` up to `syncer.Run`; `called` is the engine's own name of the job.
unfoldable pub register : (GoString → GoString) → ℕ → JobRun → World → World
register called i r w =
    put_run i (record r { phase = registered })
      (record w { cancels = insert (called r.job) i w.cancels })

abbrev pub status_of : Outcome → Bool → GoString × GoString
status_of (panicked msg) cancelled = (codes "failed", codes "panic: " ++ msg)
status_of (with_error msg) cancelled =
    if cancelled then (codes "stopped", []) else (codes "failed", msg)
status_of fine cancelled = if cancelled then (codes "stopped", []) else (codes "ok", [])

-- The end of `syncer.Run`: the flag and the status.
unfoldable pub lower : ℕ → ℕ → JobRun → Outcome → World → World
unfolding set_running set_status
lower now i r outcome w =
    let status = status_of outcome r.cancelled in
    put_run i (record r { phase = lowered })
      (record w {
        store = set_status now status.0 status.1 r.job (set_running false r.job w.store);
      })

-- The last of the deferred calls.
unfoldable pub leave : (GoString → GoString) → ℕ → JobRun → World → World
leave called i r w =
    put_run i (record r { phase = gone }) (record w { cancels = delete (called r.job) w.cancels })

unfoldable pub stop_job : GoString → World → World × StopResult
stop_job name w = elim (lookup name w.cancels) [
  | none ↦ (w, not_running)
  | some i ↦ elim (get_elem? w.runs i) [
    | none ↦ (w, stopping)
    | some r ↦ (put_run i (record r { cancelled = true }) w, stopping)
  ]
]

-- `New`: the flags of the jobs are lowered; what the file held of other jobs stays.
unfoldable pub lower_all : List GoString → Map GoString JobState → Map GoString JobState
unfolding set_running
lower_all [] store = store
lower_all (name ∷ names) store = lower_all names (set_running false name store)

unfoldable pub new_scheduler :
    Calendar → ℕ → SchedulerConfig → List GoString → Map GoString JobState → World
unfolding lower_all update_next_runs
new_scheduler cal now cfg jobs loaded = record {
  store = update_next_runs cal now cfg jobs (lower_all jobs loaded);
  cancels = [];
  runs = [];
}

module _ (cal : Calendar) (cfg : SchedulerConfig) (called : GoString → GoString)
    (jobs : List GoString) where
  pub data SchedulerStep : World → World → Type 0 where
    triggered : {w : World} → (name : GoString) → SchedulerStep w (trigger_run jobs name w).0
    ticked : {w : World} → (now : ℕ) → SchedulerStep w (tick cal now cfg jobs w)
    stopped : {w : World} → (name : GoString) → SchedulerStep w (stop_job name w).0
    registers :
        {w : World}
        → (i : ℕ) → (r : JobRun) → get_elem? w.runs i ≡ some r
        → r.phase ≡ spawned
        → SchedulerStep w (register called i r w)
    lowers :
        {w : World}
        → (now i : ℕ) → (r : JobRun) → (outcome : Outcome) → get_elem? w.runs i ≡ some r
        → r.phase ≡ registered
        → SchedulerStep w (lower now i r outcome w)
    leaves :
        {w : World}
        → (i : ℕ) → (r : JobRun) → get_elem? w.runs i ≡ some r
        → r.phase ≡ lowered
        → SchedulerStep w (leave called i r w)

  pub data SchedulerReach : World → Type 0 where
    fresh :
        (now : ℕ)
        → (loaded : Map GoString JobState) → SchedulerReach (new_scheduler cal now cfg jobs loaded)
    next : {w w' : World} → SchedulerReach w → SchedulerStep w w' → SchedulerReach w'
