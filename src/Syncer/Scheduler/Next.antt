-- ===== src/Syncer/Scheduler/Next.antt =====
-- scheduler.go: `nextRunTime` finds the next time of a daily job.
use tiramisu.Base.{
  ℕ, zero, suc, ◌+◌, ◌-◌, ◌%◌, ◌≤◌, ◌<◌, ◌≡◌, refl, sym, ap, ◌∙◌, ◌⊎◌, inl, inr, Bool, true, false,
  not, ◌&&◌, ◌||◌, List, ltb, ◌==◌, arith, Bool-cases,
}
use mathlib.Core.Path.{subst}
use tiramisu.Base.Int.{ℤ, pos}
use tiramisu.Syncer.Scheduler.{Calendar, DailyJobConfig, in_days, next_from, next_run_time}

-- A zone whose clock never goes back over midnight and never skips this hour and minute: a time of the
-- job reads back as it was given, and so does one some days later, so that the weekdays follow each
-- other.
pub record IsSteady (cal : Calendar) (h m : ℕ) : Type 0 where
  pub days_grow : (t u : ℕ) → t ≤ u → cal.day_of t ≤ cal.day_of u
  pub day_of_date : (d : ℕ) → cal.day_of (cal.date d (pos h) (pos m)) ≡ d
  pub date_later :
      (d k : ℕ) → cal.add_date (cal.date d (pos h) (pos m)) k ≡ cal.date (d + k) (pos h) (pos m)
  pub weekday_date : (d : ℕ) → cal.weekday (cal.date d (pos h) (pos m)) ≡ (d + 1) % 7

module _ {cal : Calendar} {h m : ℕ} (z : IsSteady cal h m) where
  date_after : (t d : ℕ) → cal.day_of t < d → t < cal.date d (pos h) (pos m)
  date_after t d l = elim (Bool-cases (ltb t (cal.date d (pos h) (pos m)))) [
    | inl e ↦ ground (arith, e)
    | inr e ↦
        let grown = z.days_grow (cal.date d (pos h) (pos m)) t (ground (arith, e)) in
        absurd (omega (arith, grown, l, z.day_of_date d))
  ]

  date_before : (t d : ℕ) → d < cal.day_of t → cal.date d (pos h) (pos m) < t
  date_before t d l = elim (Bool-cases (ltb (cal.date d (pos h) (pos m)) t)) [
    | inl e ↦ ground (arith, e)
    | inr e ↦
        let grown = z.days_grow t (cal.date d (pos h) (pos m)) (ground (arith, e)) in
        absurd (omega (arith, grown, l, z.day_of_date d))
  ]

  pub date_mono : (d e : ℕ) → d < e → cal.date d (pos h) (pos m) < cal.date e (pos h) (pos m)
  date_mono d e l = date_after (cal.date d (pos h) (pos m)) e (omega (arith, l, z.day_of_date d))

module _ (cal : Calendar) (now : ℕ) (days : List ℤ) (h m : ℕ) where
  abbrev pub config : DailyJobConfig
  config = record { enabled = true; days_of_week = days; hour = pos h; minute = pos m }

  abbrev candidate : ℕ → ℕ
  candidate k = cal.add_date (cal.date (cal.day_of now) (pos h) (pos m)) k

  -- The time of the job so many days from today.
  abbrev pub dated : ℕ → ℕ
  dated k = cal.date (cal.day_of now + k) (pos h) (pos m)

  -- Whether the loop takes an offset.
  abbrev taken : ℕ → Bool
  taken k = (not (k == 0) || ltb now (candidate k)) && in_days days (cal.weekday (candidate k))

  -- The loop ends with the first offset that it takes, or with none.
  next_from_cases :
      (count offset : ℕ)
      → ((k : ℕ) × (offset ≤ k)
          × (k < offset + count)
          × (taken k ≡ true)
          × (next_from cal now config count offset ≡ candidate k)
          × ((j : ℕ) → offset ≤ j → j < k → taken j ≡ false))
        ⊎ ((next_from cal now config count offset ≡ 0)
            × ((j : ℕ) → offset ≤ j → j < offset + count → taken j ≡ false))
  unfolding next_from
  next_from_cases zero offset = inr (refl, λ j a b. absurd (omega (arith, a, b)))
  next_from_cases (suc count) offset = elim (Bool-cases (taken offset)) [
    | inl e ↦ inl (
      offset,
      omega arith,
      omega arith,
      e,
      ground (arith, e),
      λ j a b. absurd (omega (arith, a, b)),
    )
    | inr e ↦
        let step : next_from cal now config (suc count) offset
            ≡ next_from cal now config count (offset + 1) =
          ground (arith, e) in
        elim (next_from_cases count (offset + 1)) [
          | inl (k, a, b, t, same, none_before) ↦ inl (
            k,
            omega (arith, a),
            omega (arith, b),
            t,
            step ∙ same,
            λ j c d. settled j c e (λ f. none_before j f d),
          )
          | inr (same, none_there) ↦
              inr (step ∙ same, λ j c d. settled j c e (λ f. none_there j f (omega (arith, d))))
        ]
  ]
    where
      settled :
          (j : ℕ)
          → offset ≤ j
          → taken offset ≡ false
          → (offset + 1 ≤ j → taken j ≡ false)
          → taken j ≡ false
      settled j c e later = elim (Bool-cases (ltb offset j)) [
        | inl q ↦ later (ground (arith, q))
        | inr q ↦
            let same : offset ≡ j = ground (arith, q, c) in subst (λ i. taken i ≡ false) same e
      ]

  in_week : (w : ℕ) → w < 7 → (k : ℕ) × (0 < k) × (k < 8) × ((cal.day_of now + k + 1) % 7 ≡ w)
  in_week w l =
      (1 + (w + 7 - (cal.day_of now + 2) % 7) % 7, omega arith, omega arith, omega (arith, l))

  -- The first time of the job after now: at most a week away, on a chosen weekday.
  abbrev pub IsFirst : ℕ → Type 0
  IsFirst t =
      (now < t)
      × ((k : ℕ) × (k < 8) × (t ≡ dated k) × (in_days days (cal.weekday (dated k)) ≡ true))
      × ((d : ℕ)
          → now < cal.date d (pos h) (pos m)
          → in_days days (cal.weekday (cal.date d (pos h) (pos m))) ≡ true
          → t ≤ cal.date d (pos h) (pos m))

  module _ (z : IsSteady cal h m) where
    candidate-dated : (k : ℕ) → candidate k ≡ dated k
    candidate-dated k = z.date_later (cal.day_of now) k

    taken-after : (k : ℕ) → taken k ≡ true → now < dated k
    taken-after zero t = ground (arith, t, candidate-dated zero)
    taken-after (suc k) t = date_after z now (cal.day_of now + suc k) (omega arith)

    -- A time of the job after now is not before the first offset that is taken.
    not_before :
        (k d : ℕ)
        → ((j : ℕ) → j < k → taken j ≡ false)
        → now < cal.date d (pos h) (pos m)
        → in_days days (cal.weekday (cal.date d (pos h) (pos m))) ≡ true
        → dated k ≤ cal.date d (pos h) (pos m)
    not_before k d before later chosen = elim (Bool-cases (ltb d (cal.day_of now))) [
      | inl e ↦ absurd (omega (arith, later, date_before z now d (ground (arith, e))))
      | inr e ↦
          let j = d - cal.day_of now in
          let same : cal.day_of now + j ≡ d = ground (arith, e) in
          let on : (ltb now (candidate j) && in_days days (cal.weekday (candidate j))) ≡ true =
            subst (λ t. (ltb now t && in_days days (cal.weekday t)) ≡ true)
              (sym (candidate-dated j ∙ ap (λ x. cal.date x (pos h) (pos m)) same))
              (ground (arith, later, chosen)) in
          elim (Bool-cases (ltb j k)) [
            | inl q ↦ absurd (ground (arith, on, before j (ground (arith, q))))
            | inr q ↦ elim (Bool-cases (j == k)) [
              | inl r ↦
                  let there : cal.day_of now + k ≡ d = ground (arith, e, r) in
                  subst (λ x. dated k ≤ cal.date x (pos h) (pos m)) there (omega arith)
              | inr r ↦
                  let more : cal.day_of now + k < d = ground (arith, e, q, r) in
                  omega (arith, date_mono z (cal.day_of now + k) d more)
            ]
          ]
    ]

    on_day : (k : ℕ) → taken k ≡ true → in_days days (cal.weekday (dated k)) ≡ true
    on_day k on =
        subst (λ t. in_days days (cal.weekday t) ≡ true) (candidate-dated k) (ground (arith, on))

    next_from-IsFirst :
        (t w : ℕ) → t ≡ next_from cal now config 8 0 → w < 7 → in_days days w ≡ true → IsFirst t
    next_from-IsFirst t w e l chosen = elim (next_from_cases 8 0) [
      | inl (k, _, b, on, same, before) ↦ subst IsFirst (sym (e ∙ same ∙ candidate-dated k)) (
        taken-after k on,
        (k, omega (arith, b), refl, on_day k on),
        λ d later there. not_before k d (λ j q. before j (omega arith) q) later there,
      )
      | inr (_, none_there) ↦
          let (k, p, q, day) = in_week w l in
          let there : cal.weekday (candidate k) ≡ w =
            ap cal.weekday (candidate-dated k) ∙ z.weekday_date (cal.day_of now + k) ∙ day in
          absurd (ground (arith, p, none_there k (omega arith) (omega (arith, q)), chosen, there))
    ]

    none-zero : ((w : ℕ) → w < 7 → in_days days w ≡ false) → next_from cal now config 8 0 ≡ 0
    none-zero none_chosen = elim (next_from_cases 8 0) [
      | inl (k, _, _, on, same, _) ↦
          let there = ap cal.weekday (candidate-dated k) ∙ z.weekday_date (cal.day_of now + k) in
          let off = none_chosen ((cal.day_of now + k + 1) % 7) (omega arith) in
          absurd (ground (arith, on, there, off))
      | inr (zero_, _) ↦ zero_
    ]

    -- In a zone whose clock never goes back over midnight and never skips the hour and minute of the daily
    -- job, so that a date at that time reads back as it was given, the search ends with the first time of
    -- the job after now if some weekday is chosen: it is after now, on a chosen weekday, at most seven days
    -- away, and no later than any other time of the job after now. Without a chosen weekday there is no
    -- time.
    pub next_run_time-IsFirst :
        ((w : ℕ) → w < 7 → in_days days w ≡ true → IsFirst (next_run_time cal now config))
        × (((w : ℕ) → w < 7 → in_days days w ≡ false) → next_run_time cal now config ≡ 0)
    unfolding next_run_time
    next_run_time-IsFirst = (
      (λ w l chosen. next_from-IsFirst (next_from cal now config 8 0) w refl l chosen),
      none-zero,
    )
