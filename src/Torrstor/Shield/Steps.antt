-- ===== src/Torrstor/Shield/Steps.antt =====
-- piece.go: the shield under any sequence of corruptions, evictions, playback stops and watchdog
-- rounds, each taken as one step. The source does each with several atomic operations; what can happen
-- between them is outside the relation `Step`, but for the one order that `lifting_race` takes apart.
use tiramisu.Base.{ℕ, ◌+◌, ◌-◌, ◌*◌, ◌≤◌, ◌<◌, ◌≡◌, Bool, true, false, arith}
use tiramisu.Torrstor.Shield.{
  Settings, Shield, second, escalation_cap, is_responsive, reset_shield, mark_not_complete,
  clean_needed, watchdog_round, lift_shield, end_watchdog,
}

-- One call, or one round of a watchdog, in one piece.
pub data Step (g : Settings) : Shield → Shield → Type 0 where
  marked : (s : Shield) (has_data : Bool) (now : ℕ) → Step g s (mark_not_complete g has_data now s)
  stopped : (s : Shield) → Step g s (reset_shield s)
  watched : (s : Shield) (now : ℕ) → 0 < s.watchdogs → Step g s (watchdog_round now s)

pub data Reach (g : Settings) (s : Shield) : Shield → Type 0 where
  here : Reach g s s
  next : {t u : Shield} → Reach g s t → Step g t u → Reach g s u

-- A raised shield, or a pending corruption, has a watchdog that will clear it.
pub record IsWatched (s : Shield) : Type 0 where
  pub raised : s.active ≡ true → 1 < s.corruption_count
  pub pending : 0 < s.corruption_count → s.watchdog_running ≡ true
  pub alive : s.watchdog_running ≡ true → 0 < s.watchdogs

pub Step-IsWatched : {g : Settings} {s t : Shield} → Step g s t → IsWatched s → IsWatched t
unfolding mark_not_complete reset_shield watchdog_round
Step-IsWatched (marked s has_data now) w = ground arith
Step-IsWatched (stopped s) w = ground arith
Step-IsWatched (watched s now h) w = ground arith

-- The process starts with all counters at zero.
abbrev pub fresh : Shield
fresh = record {
  last_corruption = 0;
  active = false;
  watchdog_running = false;
  corruption_count = 0;
  cycle_count = 0;
  watchdogs = 0;
}

-- Where each corruption, eviction, playback stop and watchdog round runs in one piece, with no other one
-- between its atomic operations, in every state that they lead to a raised
-- shield rests on at least two corruptions, a pending corruption has the watchdog flag set, and the
-- flag has a live watchdog behind it.
pub Reach-IsWatched : {g : Settings} {s : Shield} → Reach g fresh s → IsWatched s
Reach-IsWatched here = record {
  raised = λ h. cc;
  pending = λ h. absurd (omega arith);
  alive = λ h. cc;
}
Reach-IsWatched (next r st) = Step-IsWatched st (Reach-IsWatched r)

clean_needed_bounds :
    (cycle : ℕ) → (30 ≤ clean_needed cycle) × (clean_needed cycle ≤ escalation_cap)
unfolding clean_needed
clean_needed_bounds cycle = ground arith

-- Where each corruption, eviction, playback stop and watchdog round runs in one piece, in every state
-- that they lead to with the shield raised some watchdog is alive, and its next round later than
-- half an hour after the last corruption lowers the shield and clears the counters, so that the
-- mode is again what the setting says.
pub shield_lifts :
    {g : Settings} {s : Shield} (now : ℕ)
    → Reach g fresh s
    → s.active ≡ true
    → (s.last_corruption + escalation_cap) * second < now
    → (0 < s.watchdogs)
      × ((watchdog_round now s).corruption_count ≡ 0)
      × ((watchdog_round now s).cycle_count ≡ 0)
      × (is_responsive g (watchdog_round now s) ≡ g.responsive_mode)
unfolding watchdog_round is_responsive
shield_lifts {g} {s} now r up late =
    let w : IsWatched s = Reach-IsWatched r in
    let b = clean_needed_bounds s.cycle_count in
    (
      w.alive (w.pending (omega (arith, w.raised up))),
      ground (arith, b),
      ground (arith, b),
      ground (arith, b),
    )

-- With both settings on and the shield down, a corruption that no other one precedes leaves the mode
-- as it is; a corruption on top of a pending one raises the shield, lengthens the streak that is asked
-- for by one cycle, and turns the responsive mode off.
pub mark_not_complete-raises :
    (g : Settings) (now : ℕ) (s : Shield)
    → g.adaptive_shield ≡ true
    → g.responsive_mode ≡ true
    → s.active ≡ false
    → (s.corruption_count ≡ 0 → is_responsive g (mark_not_complete g true now s) ≡ true)
      × (0 < s.corruption_count
          → (is_responsive g (mark_not_complete g true now s) ≡ false)
            × ((mark_not_complete g true now s).cycle_count ≡ s.cycle_count + 1))
unfolding mark_not_complete is_responsive
mark_not_complete-raises g now s a m down = (λ h. ground arith, λ h. (ground arith, ground arith))

-- With both settings on, a corruption between the two parts of a watchdog's ending raises the shield
-- again while the flag is still set, so no watchdog starts; then the ending clears the flag and the
-- count, and the shield stays up with one watchdog less.
pub lifting_race :
    (g : Settings) (now : ℕ) (s : Shield)
    → g.adaptive_shield ≡ true
    → g.responsive_mode ≡ true
    → s.watchdog_running ≡ true
    → 0 < s.corruption_count
    → let t = end_watchdog (mark_not_complete g true now (lift_shield s)) in
      (t.active ≡ true)
      × (t.watchdog_running ≡ false)
      × (t.corruption_count ≡ 0)
      × (t.watchdogs ≡ s.watchdogs - 1)
unfolding mark_not_complete lift_shield end_watchdog
lifting_race g now s a m run h = ground arith
