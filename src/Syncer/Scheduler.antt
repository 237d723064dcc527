-- ===== src/Syncer/Scheduler.antt =====
-- internal/syncer/scheduler/scheduler.go: when the jobs are due. A time is the nanoseconds since the zero
-- time, so that `IsZero` is the comparison with nought. The dates are those of package time, in the local
-- zone.
pub mod Next
pub mod Daily
pub mod Runs
use tiramisu.Base.{
  ℕ, zero, suc, ◌+◌, ◌*◌, ◌-◌, ◌/◌, ◌%◌, ◌≤◌, ◌<◌, ◌≡◌, Bool, true, false, not, ◌&&◌, ◌||◌, Option,
  none, some, List, [], ◌∷◌, ltb, leb, ◌==◌, if◌then◌else◌,
}
use tiramisu.Base.Eq.{GoString, codes, str_eq, string_eq}
use tiramisu.Base.GoMap.{Map, lookup, insert}
use tiramisu.Base.Int.{ℤ, pos, negsuc, eq_ℤ, leb_ℤ}

-- What the code calls of package time, in the local zone: the day of a time, `time.Date` of a day, an hour
-- and a minute, `Weekday` with Sunday nought, and `AddDate(0, 0, days)`. The first of the days is a
-- Monday. Where a zone skips or repeats an hour, a date need not read back as it was given, so nothing
-- is assumed of these functions here.
pub record Calendar : Type 0 where
  pub day_of : ℕ → ℕ
  pub date : ℕ → ℤ → ℤ → ℕ
  pub weekday : ℕ → ℕ
  pub add_date : ℕ → ℕ → ℕ

pub record JobState : Type 0 where
  pub last_run : ℕ
  pub next_run : ℕ
  pub running : Bool
  pub last_error : GoString
  pub last_status : GoString

pub record DailyJobConfig : Type 0 where
  pub enabled : Bool
  pub days_of_week : List ℤ
  pub hour : ℤ
  pub minute : ℤ

pub record WatchlistSyncConfig : Type 0 where
  pub enabled : Bool
  pub interval_hours : ℤ

pub record SchedulerConfig : Type 0 where
  pub enabled : Bool
  pub movies_sync : DailyJobConfig
  pub tv_sync : DailyJobConfig
  pub music_sync : DailyJobConfig
  pub watchlist_sync : WatchlistSyncConfig

-- `daySet[d]`
unfoldable pub in_days : List ℤ → ℕ → Bool
in_days [] d = false
in_days (x ∷ xs) d = eq_ℤ x (pos d) || in_days xs d

-- `time.Duration(hours) * time.Hour`, of a positive number of hours.
abbrev pub hours : ℤ → ℕ
hours (pos n) = n * 3600000000000
hours (negsuc n) = 0

module _ (cal : Calendar) (now : ℕ) where
  unfoldable pub should_run_daily : JobState → DailyJobConfig → Bool
  unfolding in_days
  should_run_daily state cfg =
      let today = cal.date (cal.day_of now) cfg.hour cfg.minute in
      let last_day = cal.date (cal.day_of state.last_run) (pos 0) (pos 0) in
      let today_start = cal.date (cal.day_of now) (pos 0) (pos 0) in
      if not cfg.enabled
      then false
      else if not (state.next_run == 0) && ltb now state.next_run
      then false
      else if not (in_days cfg.days_of_week (cal.weekday today))
      then false
      else if ltb now today
      then false
      else if not (state.last_run == 0) && not (ltb last_day today_start)
      then false
      else true

  unfoldable pub should_run_interval : JobState → WatchlistSyncConfig → Bool
  should_run_interval state cfg =
      if not cfg.enabled || leb_ℤ cfg.interval_hours (pos 0)
      then false
      else if state.last_run == 0
      then true
      else leb (hours cfg.interval_hours) (now - state.last_run)

  unfoldable pub should_run : SchedulerConfig → GoString → JobState → Bool
  unfolding should_run_daily should_run_interval
  should_run cfg name state =
      if state.running
      then false
      else if str_eq name (codes "movies")
      then should_run_daily state cfg.movies_sync
      else if str_eq name (codes "tv")
      then should_run_daily state cfg.tv_sync
      else if str_eq name (codes "music")
      then should_run_daily state cfg.music_sync
      else if str_eq name (codes "watchlist")
      then should_run_interval state cfg.watchlist_sync
      else false

  -- The loop of `nextRunTime`, over so many offsets from one.
  unfoldable pub next_from : DailyJobConfig → ℕ → ℕ → ℕ
  unfolding in_days
  next_from cfg zero offset = 0
  next_from cfg (suc count) offset =
      let candidate = cal.add_date (cal.date (cal.day_of now) cfg.hour cfg.minute) offset in
      let on_day = in_days cfg.days_of_week (cal.weekday candidate) in
      let rest = next_from cfg count (offset + 1) in
      if offset == 0
      then (if ltb now candidate && on_day then candidate else rest)
      else if on_day
      then candidate
      else rest

  unfoldable pub next_run_time : DailyJobConfig → ℕ
  unfolding next_from
  next_run_time cfg = if not cfg.enabled then 0 else next_from cfg 8 0

  -- The switch of `updateNextRuns`.
  unfoldable pub next_run_of : SchedulerConfig → GoString → JobState → ℕ
  unfolding next_run_time
  next_run_of cfg name state =
      if str_eq name (codes "movies")
      then next_run_time cfg.movies_sync
      else if str_eq name (codes "tv")
      then next_run_time cfg.tv_sync
      else if str_eq name (codes "music")
      then next_run_time cfg.music_sync
      else if str_eq name (codes "watchlist")
      then (if cfg.watchlist_sync.enabled && not (leb_ℤ cfg.watchlist_sync.interval_hours (pos 0))
          then state.last_run + hours cfg.watchlist_sync.interval_hours
          else 0)
      else 0

abbrev pub zero_state : JobState
zero_state = record {
  last_run = 0;
  next_run = 0;
  running = false;
  last_error = [];
  last_status = [];
}

-- `Tracker` with `Snapshot`.
abbrev pub or_zero : Option JobState → JobState
or_zero none = zero_state
or_zero (some state) = state

unfoldable pub tracker : GoString → Map GoString JobState → JobState
tracker name store = or_zero (lookup name store)

unfoldable pub set_running : Bool → GoString → Map GoString JobState → Map GoString JobState
unfolding tracker
set_running b name store = insert name (record (tracker name store) { running = b }) store

unfoldable pub set_status :
    ℕ → GoString → GoString → GoString → Map GoString JobState → Map GoString JobState
unfolding tracker
set_status now status err name store =
    insert name
      (record (tracker name store) { last_run = now; last_error = err; last_status = status }) store

unfoldable pub set_next_run : ℕ → GoString → Map GoString JobState → Map GoString JobState
unfolding tracker
set_next_run next name store = insert name (record (tracker name store) { next_run = next }) store

-- One round of `updateNextRuns`; a time that has not changed is not stored.
unfoldable pub renew_next_run :
    Calendar → ℕ → SchedulerConfig → GoString → Map GoString JobState → Map GoString JobState
unfolding next_run_of set_next_run
renew_next_run cal now cfg name store =
    let state = tracker name store in
    let next = next_run_of cal now cfg name state in
    if next == state.next_run then insert name state store else set_next_run next name store

unfoldable pub update_next_runs :
    Calendar → ℕ → SchedulerConfig → List GoString → Map GoString JobState → Map GoString JobState
unfolding renew_next_run
update_next_runs cal now cfg [] store = store
update_next_runs cal now cfg (name ∷ names) store =
    update_next_runs cal now cfg names (renew_next_run cal now cfg name store)
