-- ===== src/Syncer/Scheduler/Daily.antt =====
-- scheduler.go: a daily job on the day of its next run.
use tiramisu.Base.{
  ℕ, ◌+◌, ◌≤◌, ◌<◌, ◌≡◌, sym, ap, ◌∙◌, ◌↔◌, ◌⊎◌, inl, inr, true, List, ltb, arith, Bool-cases,
}
use mathlib.Core.Path.{subst}
use tiramisu.Base.Int.{ℤ, pos}
use tiramisu.Syncer.Scheduler.{Calendar, JobState, in_days, should_run_daily, next_run_time}
use tiramisu.Syncer.Scheduler.Next.{
  config, dated, IsFirst, IsSteady, date_mono, next_run_time-IsFirst,
}

module _ (cal : Calendar) (before now w : ℕ) (days : List ℤ) (h m : ℕ) (state : JobState)
    (z : IsSteady cal h m) (midnight : IsSteady cal 0 0) where
  -- What the search of an earlier time found is the job's time today.
  today_lem :
      (k : ℕ)
      → state.next_run ≡ dated cal before days h m k
      → cal.day_of now ≡ cal.day_of state.next_run
      → cal.date (cal.day_of now) (pos h) (pos m) ≡ state.next_run
  today_lem k e same =
      let day = same ∙ ap cal.day_of e ∙ z.day_of_date (cal.day_of before + k) in
      ap (λ d. cal.date d (pos h) (pos m)) day ∙ sym e

  midnights :
      (d e : ℕ)
      → (d < e → cal.date d (pos 0) (pos 0) < cal.date e (pos 0) (pos 0))
        × (e ≤ d → cal.date e (pos 0) (pos 0) ≤ cal.date d (pos 0) (pos 0))
  midnights d e = (
    (λ l. date_mono midnight d e l),
    λ l. elim (Bool-cases (ltb e d)) [
      | inl q ↦ omega (arith, date_mono midnight e d (ground (arith, q)))
      | inr q ↦
          let same : e ≡ d = ground (arith, l, q) in
          subst (λ x. cal.date e (pos 0) (pos 0) ≤ cal.date x (pos 0) (pos 0)) same (omega arith)
    ],
  )

  -- In a zone whose clock never goes back over midnight and never skips midnight or the hour and minute
  -- of the daily job, from the time that the search found on, and on its day, a job with a chosen weekday
  -- is due exactly if it has never run or its last run ended on an earlier day.
  pub should_run_daily_iff :
      w < 7
      → in_days days w ≡ true
      → state.next_run ≡ next_run_time cal before (config cal before days h m)
      → cal.day_of now ≡ cal.day_of state.next_run
      → state.next_run ≤ now
      → (should_run_daily cal now state (config cal before days h m) ≡ true)
        ↔ ((state.last_run ≡ 0) ⊎ (cal.day_of state.last_run < cal.day_of now))
  unfolding should_run_daily
  should_run_daily_iff l chosen e same reached =
      let (_, (k, _, found, on), _) =
        subst (IsFirst cal before days h m) (sym e)
          ((next_run_time-IsFirst cal before days h m z).0 w l chosen) in
      let today = today_lem k found same in
      let day : in_days days (cal.weekday (cal.date (cal.day_of now) (pos h) (pos m))) ≡ true =
        subst (λ t. in_days days (cal.weekday t) ≡ true) (sym (today ∙ found)) on in
      let starts = midnights (cal.day_of state.last_run) (cal.day_of now) in
      (
        λ due. ground (arith, due, day, today, reached, starts),
        λ free. ground (arith, free, day, today, reached, starts),
      )
