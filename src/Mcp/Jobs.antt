-- ===== src/Mcp/Jobs.antt =====
-- internal/mcp/jobs.go: the table of background jobs. Ids are random in the source and an argument
-- here, results and errors of a job's function are opaque, times are nanoseconds. A job's context is the
-- reason for which it ended, if it has. The goroutine ends with the step `finish`, or in two where
-- a call comes between its look at the context and its write.
pub mod Slots
pub mod Lifecycle
use tiramisu.Base.{
  ℕ, ◌+◌, ◌≤◌, Bool, true, false, not, ◌&&◌, ◌||◌, Option, none, some, List, [], ◌∷◌, length, ltb,
  leb, if◌then◌else◌,
}
use tiramisu.Base.Eq.{GoString, codes, str_eq, string_eq}
use tiramisu.Base.GoMap.{Map, lookup, insert, delete}

pub data Status : Type 0 where
  running done failed : Status

abbrev pub is_running : Status → Bool
is_running running = true
is_running _ = false

-- `context.Canceled` and `context.DeadlineExceeded`
pub data CtxEnd : Type 0 where
  canceled deadline_exceeded : CtxEnd

-- An error of the job's function, a panic in it, and the two errors of `interrupted`.
pub data Failure (E : Type 0) : Type 0 where
  returned : E → Failure E
  panicked : Failure E
  cancelled_by_user : Failure E
  timed_out : Failure E

pub record Job (R E : Type 0) : Type 0 where
  pub kind : GoString
  pub status : Status
  pub result : Option R
  pub err : Option (Failure E)
  pub finished : ℕ
  pub ctx : Option CtxEnd

pub record Jobs (R E : Type 0) : Type 0 where
  pub jobs : Map GoString (Job R E)
  pub max : ℕ
  pub ttl : ℕ

pub data JobError : Type 0 where
  too_many_running unknown_job already_ended not_cancellable : JobError

pub data Result (A : Type 0) : Type 0 where
  ok : A → Result A
  error : JobError → Result A

unfoldable pub cancellable : GoString → Bool
cancellable kind =
    str_eq kind (codes "search")
    || (str_eq kind (codes "search_album") || str_eq kind (codes "inspect"))

module _ {R E : Type 0} where
  unfoldable pub purge : ℕ → ℕ → Map GoString (Job R E) → Map GoString (Job R E)
  purge ttl now [] = []
  purge ttl now ((id, job) ∷ m) =
      if not (is_running job.status) && ltb (job.finished + ttl) now
      then purge ttl now m
      else (id, job) ∷ purge ttl now m

  -- `purgeLocked`
  unfoldable pub purge_locked : ℕ → Jobs R E → Jobs R E
  unfolding purge
  purge_locked now j = record j { jobs = purge j.ttl now j.jobs }

  -- The loop of `evictOldestFinishedLocked`.
  unfoldable pub oldest_finished :
      Option (GoString × Job R E) → Map GoString (Job R E) → Option (GoString × Job R E)
  oldest_finished oldest [] = oldest
  oldest_finished none ((id, job) ∷ m) =
      oldest_finished (if not (is_running job.status) then some (id, job) else none) m
  oldest_finished (some (i, o)) ((id, job) ∷ m) =
      oldest_finished
        (if not (is_running job.status) && ltb job.finished o.finished
          then some (id, job)
          else some (i, o))
        m

  unfoldable pub evict_oldest_finished : Jobs R E → Jobs R E
  evict_oldest_finished j = elim (oldest_finished none j.jobs) [
    | none ↦ j
    | some (id, job) ↦ record j { jobs = delete id j.jobs }
  ]

  -- The purge and the eviction that `Start` makes first.
  unfoldable pub make_slot : ℕ → Jobs R E → Jobs R E
  make_slot now j =
      let p = purge_locked now j in if leb p.max (length p.jobs) then evict_oldest_finished p else p

  abbrev pub new_job : GoString → Job R E
  new_job kind = record {
    kind = kind;
    status = running;
    result = none;
    err = none;
    finished = 0;
    ctx = none;
  }

  -- `Start` up to the goroutine: the table, and the job's id or the refusal.
  unfoldable pub start : GoString → GoString → ℕ → Jobs R E → Jobs R E × Result GoString
  start kind id now j =
      let p = make_slot now j in
      if leb p.max (length p.jobs)
      then (p, error too_many_running)
      else (record p { jobs = insert id (new_job kind) p.jobs }, ok id)

  -- `interrupted`
  unfoldable pub interrupted :
      Option CtxEnd → GoString → Option R → Option (Failure E) → Option R × Option (Failure E)
  unfolding cancellable
  interrupted ctx kind res err = if not (cancellable kind) then (res, err) else (elim ctx [
    | none ↦ (res, err)
    | some canceled ↦ (none, some cancelled_by_user)
    | some deadline_exceeded ↦ (none, some timed_out)
  ])

  -- What the goroutine writes under the lock.
  unfoldable pub record_outcome : Option R → Option (Failure E) → ℕ → Job R E → Job R E
  record_outcome res err now job = record job {
    result = res;
    err = err;
    finished = now;
    status = elim err [ none ↦ done | some _ ↦ failed ];
  }

  -- The look at the context, which comes before the lock, and the write with nothing in between.
  unfoldable pub finish_job : Option R → Option (Failure E) → ℕ → Job R E → Job R E
  unfolding interrupted record_outcome
  finish_job res err now job =
      let (res', err') = interrupted job.ctx job.kind res err in record_outcome res' err' now job

  unfoldable pub update : GoString → (Job R E → Job R E) → Jobs R E → Jobs R E
  update id f j = elim (lookup id j.jobs) [
    | none ↦ j
    | some job ↦ record j { jobs = insert id (f job) j.jobs }
  ]

  -- The end of the goroutine, with what `run` returned.
  unfoldable pub finish : GoString → Option R → Option (Failure E) → ℕ → Jobs R E → Jobs R E
  unfolding finish_job update
  finish id res err now j = update id (finish_job res err now) j

  -- Its write alone, with the outcome it has settled on.
  unfoldable pub store_outcome : GoString → Option R × Option (Failure E) → ℕ → Jobs R E → Jobs R E
  unfolding record_outcome update
  store_outcome id outcome now j = update id (record_outcome outcome.0 outcome.1 now) j

  -- A context ends once: by a cancel or by its deadline, whichever comes first.
  unfoldable pub end_ctx : CtxEnd → Job R E → Job R E
  end_ctx why job = elim job.ctx [ none ↦ record job { ctx = some why } | some _ ↦ job ]

  -- `Cancel`
  unfoldable pub cancel : GoString → Jobs R E → Jobs R E × Result (Unit {0})
  unfolding end_ctx
  cancel id j = elim (lookup id j.jobs) [
    | none ↦ (j, error unknown_job)
    | some job ↦
        if not (is_running job.status)
        then (j, error already_ended)
        else if not (cancellable job.kind)
        then (j, error not_cancellable)
        else (record j { jobs = insert id (end_ctx canceled job) j.jobs }, ok tt)
  ]

  -- `Wait` with no time to wait.
  unfoldable pub poll : GoString → ℕ → Jobs R E → Jobs R E × Result (Job R E)
  poll id now j =
      let p = purge_locked now j in
      (p, elim (lookup id p.jobs) [ none ↦ error unknown_job | some job ↦ ok job ])
