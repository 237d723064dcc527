-- ===== src/Tests/Mcp.antt =====
-- jobs.go: the table of jobs at concrete inputs, two jobs at most.
use tiramisu.Base.{ℕ, ◌≡◌, refl, ◌⊎◌, true, none, some, [], ◌∷◌, length, arith}
use tiramisu.Base.Eq.{GoString, codes, string_eq, str_eq}
use tiramisu.Base.GoMap.{lookup}
use tiramisu.Mcp.Jobs.{
  done, is_running, canceled, Job, Jobs, ok, error, too_many_running, cancellable, interrupted,
  store_outcome, cancel, new_job, start,
}
use tiramisu.Mcp.Jobs.Slots.{IsValid, AllRunning, start-IsValid}
use tiramisu.Mcp.Jobs.Lifecycle.{cancel_too_late}

abbrev search_job : Job ℕ ℕ
search_job = new_job (codes "search")

abbrev ended_job : Job ℕ ℕ
ended_job = record {
  kind = codes "inspect";
  status = done;
  result = some 4;
  err = none;
  finished = 30;
  ctx = none;
}

abbrev table : Jobs ℕ ℕ
table = record { jobs = (codes "a", search_job) ∷ (codes "b", ended_job) ∷ []; max = 2; ttl = 100 }

table-IsValid : IsValid table
unfolding lookup str_eq
table-IsValid = record { ids = (refl, (refl, tt)); capped = omega arith }

found_a : lookup (codes "a") table.jobs ≡ some search_job
unfolding lookup str_eq
found_a = refl

absent_c : lookup (codes "c") table.jobs ≡ none
unfolding lookup str_eq
absent_c = refl

start-IsValid_example :
    IsValid (start (codes "search") (codes "c") 50 table).0
    × ((k : GoString) (job : Job ℕ ℕ)
        → lookup k table.jobs ≡ some job
        → is_running job.status ≡ true
        → lookup k (start (codes "search") (codes "c") 50 table).0.jobs ≡ some job)
    × (((start (codes "search") (codes "c") 50 table).1 ≡ error too_many_running)
          × AllRunning (start (codes "search") (codes "c") 50 table).0.jobs
          × (length (start (codes "search") (codes "c") 50 table).0.jobs ≡ 2)
        ⊎ ((start (codes "search") (codes "c") 50 table).1 ≡ ok (codes "c"))
          × (lookup (codes "c") (start (codes "search") (codes "c") 50 table).0.jobs
              ≡ some (new_job (codes "search"))))
start-IsValid_example = start-IsValid (codes "search") (codes "c") 50 table table-IsValid absent_c

cancel_too_late_example :
    ((cancel (codes "a") table).1 ≡ ok tt)
    × (lookup
          (codes "a")
          (store_outcome
            (codes "a")
            (interrupted none (codes "search") (some 9) none)
            60
            (cancel (codes "a") table).0).jobs
        ≡ some (record search_job {
          status = done;
          result = some 9;
          err = none;
          finished = 60;
          ctx = some canceled;
        }))
unfolding cancellable str_eq
cancel_too_late_example = cancel_too_late (codes "a") 9 60 table search_job found_a refl refl refl
