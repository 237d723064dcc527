-- ===== src/Tests/Scheduler.antt =====
-- scheduler.go: a calendar without a change of the clock, and a job on Mondays and Thursdays.
use tiramisu.Base.{
  ℕ, ◌+◌, ◌*◌, ◌/◌, ◌%◌, ◌<◌, ◌≡◌, ◌↔◌, ◌⊎◌, refl, sym, true, false, List, [], ◌∷◌, arith,
}
use tiramisu.Base.Int.{ℤ, pos, pos_part}
use tiramisu.Base.Eq.{GoString, codes, str_eq, string_eq}
use tiramisu.Base.GoMap.{lookup, insert}
use tiramisu.Syncer.Scheduler.{
  Calendar, JobState, DailyJobConfig, SchedulerConfig, in_days, should_run_daily, next_from,
  next_run_time, tracker, zero_state, set_running, set_status, set_next_run, next_run_of,
  renew_next_run, update_next_runs,
}
use tiramisu.Syncer.Scheduler.Next.{config, IsFirst, IsSteady, next_run_time-IsFirst}
use tiramisu.Syncer.Scheduler.Daily.{should_run_daily_iff}
use tiramisu.Syncer.Scheduler.Runs.{
  registered, lowered, World, fine, started, not_running, spawn, trigger_run, register, lower,
  leave, stop_job, new_scheduler, lower_all, SchedulerReach, fresh, next, triggered, registers,
  lowers,
}
use tiramisu.Syncer.Scheduler.Runs.Flags.{live}
use tiramisu.Syncer.Scheduler.Runs.One.{IsOne, Reach-IsOne}
use tiramisu.Syncer.Scheduler.Runs.Races.{new_run, spawn_twice, leave-stop_job}

-- Nanoseconds.
abbrev a_day : ℕ
a_day = 86400000000000

abbrev clock : ℕ → ℕ → ℕ
clock h m = h * 3600000000000 + m * 60000000000

abbrev plain : Calendar
plain = record {
  day_of = λ t. t / 86400000000000;
  date = λ d h m. d * 86400000000000 + (pos_part h * 3600000000000 + pos_part m * 60000000000);
  weekday = λ t. (t / 86400000000000 + 1) % 7;
  add_date = λ t k. t + k * 86400000000000;
}

steady : (h m : ℕ) → h < 24 → m < 60 → IsSteady plain h m
steady h m hh mm = record {
  days_grow = λ t u l. omega (arith, l);
  day_of_date = λ d. omega (arith, hh, mm);
  date_later = λ d k. omega (arith, hh, mm);
  weekday_date = λ d. omega (arith, hh, mm);
}

-- Mondays and Thursdays, at half past three.
abbrev days : List ℤ
days = pos 1 ∷ pos 4 ∷ []

-- A Monday at four.
abbrev monday : ℕ
monday = 7 * 86400000000000 + 4 * 3600000000000

next_run_time-IsFirst_example :
    ((w : ℕ)
      → w < 7
      → in_days days w ≡ true
      → IsFirst plain monday days 3 30 (next_run_time plain monday (config plain monday days 3 30)))
    × (((w : ℕ) → w < 7 → in_days days w ≡ false)
        → next_run_time plain monday (config plain monday days 3 30) ≡ 0)
next_run_time-IsFirst_example =
    next_run_time-IsFirst plain monday days 3 30 (steady 3 30 (omega arith) (omega arith))

thursday :
    next_run_time plain monday (config plain monday days 3 30)
    ≡ 10 * 86400000000000 + 12600000000000
unfolding next_run_time next_from in_days
thursday = refl

abbrev waiting : JobState
waiting = record zero_state { last_run = monday; next_run = 10 * 86400000000000 + 12600000000000 }

should_run_daily_iff_example :
    (should_run_daily plain
        (10 * 86400000000000 + 12600000000007)
        waiting
        (config plain monday days 3 30)
      ≡ true)
    ↔ ((monday ≡ 0)
        ⊎ (monday / 86400000000000 < (10 * 86400000000000 + 12600000000007) / 86400000000000))
unfolding in_days
should_run_daily_iff_example =
    should_run_daily_iff plain monday (10 * 86400000000000 + 12600000000007) 4 days 3 30 waiting
      (steady 3 30 (omega arith) (omega arith)) (steady 0 0 (omega arith) (omega arith))
      (omega arith) refl (sym thursday) refl (omega arith)

abbrev daily : DailyJobConfig
daily = record { enabled = true; days_of_week = days; hour = pos 3; minute = pos 30 }

abbrev settings : SchedulerConfig
settings = record {
  enabled = true;
  movies_sync = daily;
  tv_sync = daily;
  music_sync = daily;
  watchlist_sync = record { enabled = false; interval_hours = pos 6 };
}

abbrev tv : GoString
tv = codes "tv"

abbrev jobs : List GoString
jobs = tv ∷ []

abbrev idle_world : World
idle_world = new_scheduler plain monday settings jobs []

abbrev ran : World
ran =
    lower monday 0 (record (new_run tv) { phase = registered }) fine
      (register (λ n. n) 0 (new_run tv) (trigger_run jobs tv idle_world).0)

Reach-ran : SchedulerReach plain settings (λ n. n) jobs ran
unfolding register trigger_run spawn new_scheduler lower_all update_next_runs renew_next_run
    next_run_of next_run_time next_from in_days set_next_run set_running tracker lookup insert
    str_eq
Reach-ran =
    next (next (next (fresh monday []) (triggered tv)) (registers 0 (new_run tv) refl refl))
      (lowers monday 0 (record (new_run tv) { phase = registered }) fine refl refl)

Reach-IsOne_example : IsOne jobs ran
Reach-IsOne_example = Reach-IsOne plain settings (λ n. n) jobs ran Reach-ran

idle_IsOne : IsOne jobs idle_world
idle_IsOne = Reach-IsOne plain settings (λ n. n) jobs idle_world (fresh monday [])

spawn_twice_example :
    (trigger_run jobs tv idle_world ≡ (spawn tv idle_world, started))
    × (live tv (spawn tv (spawn tv idle_world)).runs ≡ 2)
unfolding new_scheduler lower_all update_next_runs renew_next_run next_run_of next_run_time
    next_from in_days set_next_run set_running tracker lookup insert str_eq
spawn_twice_example = spawn_twice jobs tv idle_world refl refl idle_IsOne

leave-stop_job_example :
    (live tv
        (leave
          (λ n. n)
          0
          (record (new_run tv) { phase = lowered })
          (register (λ n. n) 1 (new_run tv) (spawn tv ran))).runs
      ≡ 1)
    × ((stop_job tv (
          leave
            (λ n. n)
            0
            (record (new_run tv) { phase = lowered })
            (register (λ n. n) 1 (new_run tv) (spawn tv ran)))).1
        ≡ not_running)
unfolding register trigger_run spawn new_scheduler lower_all update_next_runs renew_next_run
    next_run_of lower next_run_time next_from in_days set_next_run set_running set_status tracker
    lookup insert str_eq
leave-stop_job_example =
    leave-stop_job jobs tv ran (λ n. n) 0 (record (new_run tv) { phase = lowered }) refl refl refl
      refl refl (Reach-IsOne plain settings (λ n. n) jobs ran Reach-ran)
