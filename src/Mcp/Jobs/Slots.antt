-- ===== src/Mcp/Jobs/Slots.antt =====
-- jobs.go: the cap on the table.
use tiramisu.Base.{
  ℕ, ◌≤◌, ◌≡◌, refl, ◌⊎◌, inl, inr, true, false, not, ◌&&◌, Option, none, some, [], ◌∷◌, length,
  ltb, leb, arith, Bool-cases, Option-cases,
}
use mathlib.Core.Path.{subst}
use mathlib.Core.Option.{some-injective}
use tiramisu.Base.Eq.{GoString, string_eq, =?_iff}
use tiramisu.Base.GoMap.{
  Map, lookup, delete, Unique, lookup-insert, lookup-delete, insert-Unique, delete-Unique,
  length-delete, length-delete-le, length-insert_new, lookup-head, lookup-tail,
}
use tiramisu.Mcp.Jobs.{
  is_running, Job, Jobs, ok, error, too_many_running, purge, purge_locked, oldest_finished,
  evict_oldest_finished, make_slot, new_job, start,
}

module _ {R E : Type 0} where
  abbrev pub AllRunning : Map GoString (Job R E) → Type 0
  AllRunning [] = Unit
  AllRunning ((id, job) ∷ m) = (is_running job.status ≡ true) × AllRunning m

  -- Distinct ids, and no more jobs than the cap.
  pub record IsValid (j : Jobs R E) : Type 0 where
    pub ids : Unique j.jobs
    pub capped : length j.jobs ≤ j.max

  lookup-purge :
      (ttl now : ℕ) (k : GoString) (m : Map GoString (Job R E))
      → lookup k m ≡ none
      → lookup k (purge ttl now m) ≡ none
  unfolding lookup purge
  lookup-purge ttl now k [] h = refl
  lookup-purge ttl now k ((id, job) ∷ m) h = ground (arith, lookup-purge ttl now k m)

  purge-Unique : (ttl now : ℕ) (m : Map GoString (Job R E)) → Unique m → Unique (purge ttl now m)
  unfolding purge
  purge-Unique ttl now [] u = tt
  purge-Unique ttl now ((id, job) ∷ m) u =
      ground (arith, lookup-purge ttl now id m u.0, purge-Unique ttl now m u.1)

  length-purge-le : (ttl now : ℕ) (m : Map GoString (Job R E)) → length (purge ttl now m) ≤ length m
  unfolding purge
  length-purge-le ttl now [] = omega arith
  length-purge-le ttl now ((id, job) ∷ m) = ground (arith, length-purge-le ttl now m)

  pub purge_keeps :
      (ttl now : ℕ) (k : GoString) (job : Job R E) (m : Map GoString (Job R E))
      → lookup k m ≡ some job
      → is_running job.status ≡ true
      → lookup k (purge ttl now m) ≡ some job
  unfolding lookup purge
  purge_keeps ttl now k job [] h r = ground arith
  purge_keeps ttl now k job ((id, o) ∷ m) h r =
      ground (arith, =?_iff id k, purge_keeps ttl now k job m)

  pick :
      (P : GoString → Job R E → Type 0) (j i : GoString) (o p : Job R E)
      → P j o
      → ◌≡◌ {A = Option (GoString × Job R E)} (some (j, o)) (some (i, p))
      → P i p
  pick P j i o p h q = subst (λ t. P t.0 t.1) (some-injective _ _ q) h

  oldest_kept :
      (o : GoString × Job R E) (m : Map GoString (Job R E))
      → (p : GoString × Job R E) × (oldest_finished (some o) m ≡ some p)
  unfolding oldest_finished
  oldest_kept (i, o) [] = ((i, o), refl)
  oldest_kept (i, o) ((id, job) ∷ m) =
      elim (Bool-cases (not (is_running job.status) && ltb job.finished o.finished)) [
        | inl e ↦ rw e (oldest_kept (id, job) m)
        | inr e ↦ rw e (oldest_kept (i, o) m)
      ]

  -- Nothing is found to evict exactly if every job runs.
  oldest-none : (m : Map GoString (Job R E)) → oldest_finished none m ≡ none → AllRunning m
  unfolding oldest_finished
  oldest-none [] h = tt
  oldest-none ((id, job) ∷ m) h = elim (Bool-cases (is_running job.status)) [
    | inl e ↦ (e, oldest-none m (ground arith))
    | inr e ↦ let (p, found) = oldest_kept (id, job) m in absurd (ground (arith, found))
  ]

  abbrev AllFinished : (GoString → Job R E → Type 0) → Map GoString (Job R E) → Type 0
  AllFinished P [] = Unit
  AllFinished P ((id, job) ∷ m) = (is_running job.status ≡ false → P id job) × AllFinished P m

  -- What is found to evict is a job that has ended.
  oldest-from :
      (P : GoString → Job R E → Type 0) (acc : Option (GoString × Job R E))
      (m : Map GoString (Job R E)) (id : GoString) (job : Job R E)
      → ((i : GoString) (o : Job R E) → acc ≡ some (i, o) → P i o)
      → AllFinished P m
      → oldest_finished acc m ≡ some (id, job)
      → P id job
  unfolding oldest_finished
  oldest-from P acc [] id job h f e = h id job e
  oldest-from P none ((j, o) ∷ m) id job h f e = elim (Bool-cases (is_running o.status)) [
    | inl r ↦ oldest-from P none m id job (λ i p q. absurd (cc q)) f.1 (ground arith)
    | inr r ↦
        oldest-from P (some (j, o)) m id job (λ i p q. pick P j i o p (f.0 r) q) f.1 (ground arith)
  ]
  oldest-from P (some (i, a)) ((j, o) ∷ m) id job h f e =
      elim (Bool-cases (not (is_running o.status) && ltb o.finished a.finished)) [
        | inl r ↦
            oldest-from P (some (j, o)) m id job (λ k p q. pick P j k o p (f.0 (ground arith)) q)
              f.1 (ground arith)
        | inr r ↦ oldest-from P (some (i, a)) m id job h f.1 (ground arith)
      ]

  ended_entries :
      (m : Map GoString (Job R E))
      → Unique m
      → AllFinished (λ id job. (is_running job.status ≡ false) × (lookup id m ≡ some job)) m
  ended_entries m u = go m m u (λ id job h. h)
    where
      go :
          (n all : Map GoString (Job R E))
          → Unique n
          → ((id : GoString) (job : Job R E) → lookup id n ≡ some job → lookup id all ≡ some job)
          → AllFinished (λ id job. (is_running job.status ≡ false) × (lookup id all ≡ some job)) n
      go [] all v f = tt
      go ((id, job) ∷ n) all v f = (
        λ r. (r, f id job (lookup-head id job n)),
        go n all v.1 (λ k o h. f k o (lookup-tail k id o job n v.0 h)),
      )

  purged-IsValid : (now : ℕ) (j : Jobs R E) → IsValid j → IsValid (purge_locked now j)
  unfolding purge_locked
  purged-IsValid now j v = record {
    ids = purge-Unique j.ttl now j.jobs v.ids;
    capped = omega (arith, length-purge-le j.ttl now j.jobs, v.capped);
  }

  -- What the eviction does to a table: nothing if all its jobs run, and else one ended job goes.
  evict_cases :
      (j : Jobs R E)
      → Unique j.jobs
      → (AllRunning j.jobs × (evict_oldest_finished j ≡ j))
        ⊎ ((id : GoString) × (job : Job R E) × (lookup id j.jobs ≡ some job)
            × (is_running job.status ≡ false)
            × (evict_oldest_finished j ≡ record j { jobs = delete id j.jobs }))
  unfolding evict_oldest_finished
  evict_cases j u = elim (Option-cases (oldest_finished none j.jobs)) [
    | inl e ↦ inl (oldest-none j.jobs e, rw (e, evict_oldest_finished))
    | inr ((id, job), e) ↦
        let (ended, at) =
          oldest-from (λ i o. (is_running o.status ≡ false) × (lookup i j.jobs ≡ some o)) none
            j.jobs id job (λ i o h. absurd (cc h)) (ended_entries j.jobs u) e in
        inr (id, job, at, ended, rw (e, evict_oldest_finished))
  ]

  -- A slot: the table keeps its running jobs, and is full only of running jobs.
  pub record Slot (j p : Jobs R E) : Type 0 where
    pub valid : IsValid p
    pub cap : p.max ≡ j.max
    pub full : p.max ≤ length p.jobs → AllRunning p.jobs
    pub keeps :
        (k : GoString) (job : Job R E)
        → lookup k j.jobs ≡ some job
        → is_running job.status ≡ true
        → lookup k p.jobs ≡ some job
    pub absent : (k : GoString) → lookup k j.jobs ≡ none → lookup k p.jobs ≡ none

  evict-Slot :
      (j p : Jobs R E)
      → IsValid p
      → p.max ≡ j.max
      → p.max ≤ length p.jobs
      → ((k : GoString) (job : Job R E)
          → lookup k j.jobs ≡ some job
          → is_running job.status ≡ true
          → lookup k p.jobs ≡ some job)
      → ((k : GoString) → lookup k j.jobs ≡ none → lookup k p.jobs ≡ none)
      → Slot j (evict_oldest_finished p)
  evict-Slot j p v m full keeps absent = elim (evict_cases p v.ids) [
    | inl (all, same) ↦
        rw same (record { valid = v; cap = m; full = λ h. all; keeps = keeps; absent = absent })
    | inr (id, job, at, ended, same) ↦ rw same (record {
      valid = record {
        ids = delete-Unique id p.jobs v.ids;
        capped = omega (arith, v.capped, length-delete-le id p.jobs);
      };
      cap = m;
      full = λ h. absurd (omega (arith, v.capped, length-delete id job p.jobs v.ids at));
      keeps = λ k o h r. ground (arith, keeps k o h r, lookup-delete id k p.jobs, =?_iff id k);
      absent = λ k h. ground (arith, absent k h, lookup-delete id k p.jobs);
    })
  ]

  make_slot-Slot : (now : ℕ) (j : Jobs R E) → IsValid j → Slot j (make_slot now j)
  unfolding make_slot purge_locked
  make_slot-Slot now j v =
      let p = purge_locked now j in
      elim (Bool-cases (leb p.max (length p.jobs))) [
        | inl full ↦ rw full (
            evict-Slot j p (purged-IsValid now j v) refl (ground arith)
              (λ k job h r. purge_keeps j.ttl now k job j.jobs h r)
              (λ k h. lookup-purge j.ttl now k j.jobs h))
        | inr room ↦ rw room (record {
          valid = purged-IsValid now j v;
          cap = refl;
          full = λ h. absurd (ground arith);
          keeps = λ k job h r. purge_keeps j.ttl now k job j.jobs h r;
          absent = λ k h. lookup-purge j.ttl now k j.jobs h;
        })
      ]

  -- Starting a job keeps the table within its cap with distinct ids, and keeps every job that
  -- runs. It is refused only when the table, as it stands then, is full and every job in it runs;
  -- otherwise the new job stands there as running. The new id is one that the table does not hold.
  pub start-IsValid :
      (kind id : GoString) (now : ℕ) (j : Jobs R E)
      → IsValid j
      → lookup id j.jobs ≡ none
      → IsValid (start kind id now j).0
        × ((k : GoString) (job : Job R E)
            → lookup k j.jobs ≡ some job
            → is_running job.status ≡ true
            → lookup k (start kind id now j).0.jobs ≡ some job)
        × (((start kind id now j).1 ≡ error too_many_running)
              × AllRunning (start kind id now j).0.jobs
              × (length (start kind id now j).0.jobs ≡ j.max)
            ⊎ ((start kind id now j).1 ≡ ok id)
              × (lookup id (start kind id now j).0.jobs ≡ some (new_job kind)))
  unfolding start
  start-IsValid kind id now j v new =
      let p = make_slot now j in
      let s = make_slot-Slot now j v in
      let w = s.valid in
      elim (Bool-cases (leb p.max (length p.jobs))) [
        | inl full ↦
            rw full (w, s.keeps, inl (refl, s.full (ground arith), ground (arith, w.capped, s.cap)))
        | inr room ↦ rw room (
          record {
            ids = insert-Unique id (new_job kind) p.jobs w.ids;
            capped = ground (arith, length-insert_new id (new_job kind) p.jobs (s.absent id new));
          },
          λ k job h r. ground (
            arith,
            lookup-insert id k (new_job kind) p.jobs,
            =?_iff id k,
            s.keeps k job h r,
            s.absent id new,
          ),
          inr (refl, ground (arith, lookup-insert id id (new_job kind) p.jobs, =?_iff id id)),
        )
      ]
