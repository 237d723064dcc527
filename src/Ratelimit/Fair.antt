-- ===== src/Ratelimit/Fair.antt =====
-- ratelimit.go: how many calls get through.
use tiramisu.Base.{ℕ, zero, suc, ◌+◌, ◌-◌, ◌*◌, ◌≤◌, ◌<◌, ◌≡◌, refl, ap, ◌∙◌, false, arith}
use tiramisu.Ratelimit.{RateLimiter, drain, refill, reset, stop}

drain-empty : (n : ℕ) (rl : RateLimiter) → rl.sem ≤ n → drain n rl ≡ record rl { sem = 0 }
unfolding drain
drain-empty zero rl h = ground arith
drain-empty (suc n) rl h = ground (arith, drain-empty n (record rl { sem = rl.sem - 1 }))

refill-full :
    (n : ℕ) (rl : RateLimiter)
    → rl.sem ≤ rl.capacity
    → rl.capacity ≤ rl.sem + n
    → refill n rl ≡ record rl { sem = rl.capacity }
unfolding refill
refill-full zero rl h k = ground arith
refill-full (suc n) rl h k = ground (arith, refill-full n (record rl { sem = rl.sem + 1 }))

-- A reset that nothing interrupts leaves exactly the capacity of tokens, whatever was left; after
-- `Stop` it changes nothing.
pub reset-full :
    (rl : RateLimiter)
    → (rl.stopped ≡ false → reset rl ≡ record rl { sem = rl.capacity })
      × (reset (stop rl) ≡ stop rl)
unfolding reset stop
reset-full rl = (λ live. ground (arith, refilled), refl)
  where
    refilled : refill rl.capacity (drain rl.sem rl) ≡ record rl { sem = rl.capacity }
    refilled =
        ap (refill rl.capacity) (drain-empty rl.sem rl (omega arith))
        ∙ refill-full rl.capacity (record rl { sem = 0 }) (omega arith) (omega arith)

-- The channel under interleaving. A state counts the calls granted, the resets begun and the sends
-- that the current reset has left.
pub record Bucket : Type 0 where
  pub sem : ℕ
  pub granted : ℕ
  pub resets : ℕ
  pub sends : ℕ

pub data Step (capacity : ℕ) : Bucket → Bucket → Type 0 where
  take :
      (b : Bucket)
      → 0 < b.sem
      → Step capacity b (record b { sem = b.sem - 1; granted = b.granted + 1 })
  begin :
      (b : Bucket)
      → b.sends ≡ 0
      → Step capacity b (record b { resets = b.resets + 1; sends = capacity })
  drained : (b : Bucket) → 0 < b.sem → Step capacity b (record b { sem = b.sem - 1 })
  sent :
      (b : Bucket)
      → 0 < b.sends
      → b.sem < capacity
      → Step capacity b (record b { sem = b.sem + 1; sends = b.sends - 1 })
  given_up : (b : Bucket) → capacity ≤ b.sem → Step capacity b (record b { sends = 0 })

pub data Reach (capacity : ℕ) (a : Bucket) : Bucket → Type 0 where
  here : Reach capacity a a
  next : {b c : Bucket} → Reach capacity a b → Step capacity b c → Reach capacity a c

abbrev pub filled : ℕ → Bucket
filled capacity = record { sem = capacity; granted = 0; resets = 0; sends = 0 }

pub record IsFair (capacity : ℕ) (b : Bucket) : Type 0 where
  pub bounded : b.sem ≤ capacity
  pub budget : b.granted + b.sem + b.sends ≤ capacity * (b.resets + 1)

Step-IsFair :
    {capacity : ℕ} {b c : Bucket} → Step capacity b c → IsFair capacity b → IsFair capacity c
Step-IsFair (take b h) f = ground arith
Step-IsFair {capacity} (begin b h) f = record { bounded = f.bounded; budget = grind arith }
Step-IsFair (drained b h) f = ground arith
Step-IsFair (sent b h k) f = ground arith
Step-IsFair (given_up b h) f = ground arith

Reach-IsFair : {capacity : ℕ} {b : Bucket} → Reach capacity (filled capacity) b → IsFair capacity b
Reach-IsFair {capacity} here = record { bounded = omega arith; budget = grind arith }
Reach-IsFair (next r st) = Step-IsFair st (Reach-IsFair r)

-- However the sends and receives of the resets interleave with the calls, the channel never holds more
-- than its capacity, and at most the capacity of calls for each reset begun, and once more for the
-- initial fill, gets a token.
pub granted-le :
    {capacity : ℕ} {b : Bucket}
    → Reach capacity (filled capacity) b
    → (b.sem ≤ capacity) × (b.granted ≤ capacity * (b.resets + 1))
granted-le r = let f = Reach-IsFair r in (f.bounded, omega (arith, f.budget))
