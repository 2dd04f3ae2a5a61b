-- ===== src/Feed/Limiter.antt =====
-- `TokenBucketRateLimiter` of aitos/exchange/rate_limiter.py. Each turn of the loop of `acquire`
-- reads the clock once; the readings are a list, and a call that has used them up still waits.
pub mod Grants
use project_alpha.Common.{ℕ, List, [], ◌∷◌, ltb, if◌then◌else◌}
use project_alpha.Float.{Float, ◌+◌, ◌-◌, ◌*◌, ◌/◌, lit, le, min}

pub record TokenBucket (W : Type 0) : Type 0 where
  pub capacity : ℕ
  pub tokens : W
  pub refill_per_second : W
  pub last_refill : W

pub data Acquired (W : Type 0) : Type 0 where
  weight_exceeds_capacity : Acquired W
  granted : TokenBucket W → Acquired W
  -- Asleep, for the seconds of the last turn.
  waiting : TokenBucket W → W → Acquired W

module _ {W : Type 0} ⦃f : Float W⦄ where
  unfoldable pub new_bucket : ℕ → W → W → TokenBucket W
  new_bucket capacity rate now = record {
    capacity = capacity;
    tokens = lit capacity 0;
    refill_per_second = rate;
    last_refill = now;
  }

  unfoldable pub refill : W → TokenBucket W → TokenBucket W
  refill now b = record b {
    tokens = min (lit b.capacity 0) (b.tokens + (now - b.last_refill) * b.refill_per_second);
    last_refill = now;
  }

  abbrev pub wait_seconds : ℕ → TokenBucket W → W
  wait_seconds weight b = (lit weight 0 - b.tokens) / b.refill_per_second

  -- The loop, for a weight that the capacity allows.
  acquire_loop : ℕ → List W → TokenBucket W → W → Acquired W
  unfolding refill
  acquire_loop weight [] b seconds = waiting b seconds
  acquire_loop weight (now ∷ later) b seconds =
      let b' = refill now b in
      let again = acquire_loop weight later b' (wait_seconds weight b') in
      if le (lit weight 0) b'.tokens
      then granted (record b' { tokens = b'.tokens - lit weight 0 })
      else again

  unfoldable pub acquire : ℕ → List W → TokenBucket W → Acquired W
  unfolding acquire_loop
  acquire weight readings b =
      if ltb b.capacity weight
      then weight_exceeds_capacity
      else acquire_loop weight readings b (lit 0 0)
