-- ===== src/Ratelimit.antt =====
-- internal/ratelimit/ratelimit.go: the token bucket. The buffered channel is the number of tokens in
-- it. `reset` is a drain followed by a refill whose sends and receives interleave with `Acquire`.
pub mod Fair
use tiramisu.Base.{
  ℕ, zero, suc, ◌+◌, ◌-◌, ◌<◌, Bool, true, false, Option, none, some, ltb, ◌==◌, if◌then◌else◌,
}

pub record RateLimiter : Type 0 where
  pub sem : ℕ
  pub capacity : ℕ
  pub stopped : Bool

unfoldable pub new_rate_limiter : ℕ → RateLimiter
new_rate_limiter capacity = record { sem = capacity; capacity = capacity; stopped = false }

-- What `Acquire` returns: a token, or the context's error.
pub data Acquired : Type 0 where
  token : Acquired
  cancelled : Acquired

-- `Acquire`; `none` is a call that waits. With a token and an ended context the select takes either.
unfoldable pub acquire : Bool → Bool → RateLimiter → Option (RateLimiter × Acquired)
acquire ctx_done prefers_ctx rl =
    if ltb 0 rl.sem
    then (if ctx_done
        then (if prefers_ctx
            then some (rl, cancelled)
            else some (record rl { sem = rl.sem - 1 }, token))
        else some (record rl { sem = rl.sem - 1 }, token))
    else (if ctx_done then some (rl, cancelled) else none)

-- The drain with no other call in between: every token goes.
unfoldable pub drain : ℕ → RateLimiter → RateLimiter
drain zero rl = rl
drain (suc n) rl =
    let rest = drain n (record rl { sem = rl.sem - 1 }) in if ltb 0 rl.sem then rest else rl

-- `n` rounds of the refill, which gives up on a full channel.
unfoldable pub refill : ℕ → RateLimiter → RateLimiter
refill zero rl = rl
refill (suc n) rl =
    let rest = refill n (record rl { sem = rl.sem + 1 }) in
    if ltb rl.sem rl.capacity then rest else rl

unfoldable pub reset : RateLimiter → RateLimiter
unfolding drain refill
reset rl = let full = refill rl.capacity (drain rl.sem rl) in if rl.stopped then rl else full

unfoldable pub stop : RateLimiter → RateLimiter
stop rl = record rl { stopped = true }
