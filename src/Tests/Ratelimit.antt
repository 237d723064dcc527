-- ===== src/Tests/Ratelimit.antt =====
-- ratelimit.go: a bucket of three tokens.
use tiramisu.Base.{◌+◌, ◌*◌, ◌≤◌, refl, false, arith}
use tiramisu.Ratelimit.{RateLimiter}
use tiramisu.Ratelimit.Fair.{Bucket, take, begin, sent, Reach, here, next, filled, granted-le}

abbrev spent : RateLimiter
spent = record { sem = 1; capacity = 3; stopped = false }

abbrev after : Bucket
after = record { sem = 3; granted = 1; resets = 1; sends = 2 }

-- A call, a reset, and its first send.
Reach-after : Reach 3 (filled 3) after
Reach-after =
    next (next (next here (take (filled 3) (omega arith))) (begin _ refl))
      (sent _ (omega arith) (omega arith))

granted-le_example : (3 ≤ 3) × (1 ≤ 3 * (1 + 1))
granted-le_example = granted-le Reach-after
