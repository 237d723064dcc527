-- ===== src/Mcp/Jobs/Lifecycle.antt =====
-- jobs.go: how a job ends, and what a poll sees.
use tiramisu.Base.{ℕ, ◌≡◌, ◌⊎◌, true, false, Option, none, some, arith}
use tiramisu.Base.Eq.{GoString, string_eq, =?_iff}
use tiramisu.Base.GoMap.{lookup, lookup-insert}
use tiramisu.Mcp.Jobs.{
  done, failed, is_running, canceled, Failure, cancelled_by_user, Job, Jobs, ok, error, unknown_job,
  already_ended, not_cancellable, cancellable, interrupted, record_outcome, finish_job, update,
  finish, store_outcome, end_ctx, cancel, purge_locked, poll,
}
use tiramisu.Mcp.Jobs.Slots.{purge_keeps}

module _ {R E : Type 0} where
  lookup-update :
      (id : GoString) (f : Job R E → Job R E) (j : Jobs R E) (job : Job R E)
      → lookup id j.jobs ≡ some job
      → lookup id (update id f j).jobs ≡ some (f job)
  unfolding update
  lookup-update id f j job h = ground (arith, lookup-insert id id (f job) j.jobs, =?_iff id id)

  -- `Cancel` succeeds exactly for a job that is known, runs and is of a kind that may be stopped; in
  -- every other case the table is as it was, and the error names the first reason that applies.
  pub cancel_cases :
      (id : GoString) (j : Jobs R E)
      → (lookup id j.jobs ≡ none → cancel id j ≡ (j, error unknown_job))
        × ((job : Job R E)
            → lookup id j.jobs ≡ some job
            → (is_running job.status ≡ false → cancel id j ≡ (j, error already_ended))
              × (is_running job.status ≡ true
                  → cancellable job.kind ≡ false
                  → cancel id j ≡ (j, error not_cancellable))
              × (is_running job.status ≡ true
                  → cancellable job.kind ≡ true
                  → ((cancel id j).1 ≡ ok tt)
                    × (lookup id (cancel id j).0.jobs ≡ some (end_ctx canceled job))))
  unfolding cancel
  cancel_cases id j = (
    λ h. ground arith,
    λ job h. (
      λ r. ground arith,
      λ r k. ground arith,
      λ r k. (
        ground arith,
        ground (arith, lookup-insert id id (end_ctx canceled job) j.jobs, =?_iff id id),
      ),
    ),
  )

  -- A job that was cancelled before its context had ended finishes as failed with the cancellation as its
  -- error and no result, whatever its function returned.
  pub finish-cancel :
      (id : GoString) (res : Option R) (err : Option (Failure E)) (now : ℕ) (j : Jobs R E)
      (job : Job R E)
      → lookup id j.jobs ≡ some job
      → is_running job.status ≡ true
      → cancellable job.kind ≡ true
      → job.ctx ≡ none
      → lookup id (finish id res err now (cancel id j).0).jobs
        ≡ some (record job {
          status = failed;
          result = none;
          err = some cancelled_by_user;
          finished = now;
          ctx = some canceled;
        })
  unfolding finish finish_job record_outcome interrupted end_ctx
  finish-cancel id res err now j job h r k c =
      let after = ((cancel_cases id j).1 job h).2 r k in
      ground (
        arith,
        lookup-update id (finish_job res err now) (cancel id j).0 (end_ctx canceled job) after.1,
      )

  -- A job of a kind that may not be stopped, and any job whose context is still live, finishes with
  -- what its function returned: as done exactly if there is no error.
  pub finish_outcome :
      (id : GoString) (res : Option R) (err : Option (Failure E)) (now : ℕ) (j : Jobs R E)
      (job : Job R E)
      → lookup id j.jobs ≡ some job
      → (cancellable job.kind ≡ false) ⊎ (job.ctx ≡ none)
      → lookup id (finish id res err now j).jobs
        ≡ some (record job {
          status = elim err [ none ↦ done | some _ ↦ failed ];
          result = res;
          err = err;
          finished = now;
        })
  unfolding finish finish_job record_outcome interrupted
  finish_outcome id res err now j job h k =
      ground (arith, lookup-update id (finish_job res err now) j job h)

  -- A job that runs is never purged: a poll at any time sees it as it is.
  pub poll_running :
      (id : GoString) (now : ℕ) (j : Jobs R E) (job : Job R E)
      → lookup id j.jobs ≡ some job
      → is_running job.status ≡ true
      → (poll id now j).1 ≡ ok job
  unfolding poll purge_locked
  poll_running id now j job h r = rw (poll, purge_keeps j.ttl now id job j.jobs h r)

  -- A cancel that comes when the goroutine has looked at its live context and not yet taken the lock
  -- succeeds, and the job then still ends as done, with its result.
  pub cancel_too_late :
      (id : GoString) (res : R) (now : ℕ) (j : Jobs R E) (job : Job R E)
      → lookup id j.jobs ≡ some job
      → is_running job.status ≡ true
      → cancellable job.kind ≡ true
      → job.ctx ≡ none
      → ((cancel id j).1 ≡ ok tt)
        × (lookup id
              (store_outcome id
                (interrupted job.ctx job.kind (some res) none)
                now
                (cancel id j).0).jobs
            ≡ some (record job {
              status = done;
              result = some res;
              err = none;
              finished = now;
              ctx = some canceled;
            }))
  unfolding store_outcome record_outcome interrupted end_ctx
  cancel_too_late id res now j job h r k c =
      let after = ((cancel_cases id j).1 job h).2 r k in
      (
        after.0,
        ground (
          arith,
          lookup-update id (record_outcome (some res) none now) (cancel id j).0
              (end_ctx canceled job) after.1,
        ),
      )
