-- ===== src/Torrstor/Shield.antt =====
-- internal/gostorm/torr/storage/torrstor/piece.go: the adaptive shield, which leaves the responsive
-- mode while pieces fail their hash check. The atomics are the state; the watchdog goroutines that
-- are alive are counted, since the flag that should admit only one is cleared from elsewhere too.
-- Times are nanoseconds; the stamp of the last corruption is in whole seconds. A call, or a round of the
-- watchdog, is one function, though the source does it with several atomic operations; only
-- `lift_shield` and `end_watchdog` are parts of a round.
pub mod Steps
use tiramisu.Base.{
  ℕ, ◌+◌, ◌-◌, ◌*◌, ◌/◌, ◌<◌, Bool, true, false, not, ◌&&◌, ◌||◌, ltb, leb, if◌then◌else◌,
}

pub record Settings : Type 0 where
  pub adaptive_shield : Bool
  pub responsive_mode : Bool

pub record Shield : Type 0 where
  pub last_corruption : ℕ
  pub active : Bool
  pub watchdog_running : Bool
  pub corruption_count : ℕ
  pub cycle_count : ℕ
  pub watchdogs : ℕ

abbrev pub second : ℕ
second = 1000000000

abbrev pub escalation_cap : ℕ
escalation_cap = 1800

unfoldable pub is_responsive : Settings → Shield → Bool
is_responsive g s = g.responsive_mode && not s.active

unfoldable pub reset_shield : Shield → Shield
reset_shield s = record s { active = false; watchdog_running = false; corruption_count = 0 }

-- The count of corruptions, and the shield from the second one on.
unfoldable pub note_corruption : Settings → Shield → Shield
note_corruption g s =
    if g.adaptive_shield && g.responsive_mode && not s.active
    then (if ltb 1 (s.corruption_count + 1)
        then record s {
          corruption_count = s.corruption_count + 1;
          cycle_count = s.cycle_count + 1;
          active = true;
        }
        else record s { corruption_count = s.corruption_count + 1 })
    else s

-- The flag is swapped only if corruptions are pending; a swap from false starts a goroutine.
unfoldable pub start_watchdog : Shield → Shield
start_watchdog s =
    if leb 1 s.corruption_count && not s.watchdog_running
    then record s { watchdog_running = true; watchdogs = s.watchdogs + 1 }
    else s

-- `MarkNotComplete` at the time `now`; a piece without a buffer was evicted, not corrupted.
unfoldable pub mark_not_complete : Settings → Bool → ℕ → Shield → Shield
unfolding note_corruption start_watchdog
mark_not_complete g has_data now s =
    if not has_data
    then s
    else start_watchdog (note_corruption g (record s { last_corruption = now / second }))

-- The clean streak that the watchdog waits for, in seconds.
unfoldable pub clean_needed : ℕ → ℕ
clean_needed cycle =
    let raised = if ltb (30 * cycle) 30 then 30 else 30 * cycle in
    if ltb escalation_cap raised then escalation_cap else raised

unfoldable pub streak_is_clean : ℕ → Shield → Bool
unfolding clean_needed
streak_is_clean now s = ltb (s.last_corruption * second + clean_needed s.cycle_count * second) now

-- The watchdog's two parts after a clean streak: the swap, then the stores and the return.
unfoldable pub lift_shield : Shield → Shield
lift_shield s = record s { active = false }

unfoldable pub end_watchdog : Shield → Shield
end_watchdog s = record s {
  corruption_count = 0;
  cycle_count = 0;
  watchdog_running = false;
  watchdogs = s.watchdogs - 1;
}

-- One round of a watchdog goroutine that nothing interrupts.
unfoldable pub watchdog_round : ℕ → Shield → Shield
unfolding streak_is_clean lift_shield end_watchdog
watchdog_round now s = if streak_is_clean now s then end_watchdog (lift_shield s) else s
