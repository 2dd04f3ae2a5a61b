-- ===== src/Services/Retry.antt =====
-- aitos/resilience.py. The operation acts on a state and may raise an exception of the kinds that
-- are retried, or another one; `random.uniform` is a parameter. Sleeping is the list of waits. That
-- `2.0 ** n` overflows a float beyond 1,023 is not modelled.
pub mod Outcomes
use project_alpha.Common.{
  ℕ, zero, suc, ◌-◌, ◌^◌, Option, none, some, List, [], ◌∷◌, ◌++◌, ◌==◌, if◌then◌else◌, Result, ok,
  err,
}
use project_alpha.Float.{Float, ◌+◌, ◌*◌, lit, min}

pub data Attempt (A E : Type 0) : Type 0 where
  returned : A → Attempt A E
  raised : E → Attempt A E
  raised_other : E → Attempt A E

-- `RetryExhaustedError`, with the last exception when there was an attempt, or an exception that
-- propagates.
pub data RetryError (E : Type 0) : Type 0 where
  retry_exhausted : ℕ → Option E → RetryError E
  propagated : E → RetryError E

pub record RetryRun (W X A E : Type 0) : Type 0 where
  pub result : Result (RetryError E) A
  pub waits : List W
  pub state : X

pub record Backoff (W : Type 0) : Type 0 where
  pub max_attempts : ℕ
  pub base_delay_seconds : W
  pub max_delay_seconds : W

module _ {W X A E : Type 0} ⦃f : Float W⦄ (uniform : ℕ → W → W → W) (fn : X → Attempt A E × X) where
  unfoldable pub wait_time : Backoff W → ℕ → W
  unfolding min
  wait_time b attempt =
      let delay = min (b.base_delay_seconds * lit (2 ^ (attempt - 1)) 0) b.max_delay_seconds in
      delay + uniform attempt (lit 0 0) (delay * lit 25 2)

  -- The attempts that are left, from the one with the number `attempt`; `last` is the exception of
  -- the one before.
  pub retry_loop : Backoff W → ℕ → ℕ → Option E → List W → X → RetryRun W X A E
  unfolding wait_time
  retry_loop b zero attempt last waits x = record {
    result = err (retry_exhausted b.max_attempts last);
    waits = waits;
    state = x;
  }
  retry_loop b (suc left) attempt last waits x = elim (fn x).0 [
    | returned a ↦ record { result = ok a; waits = waits; state = (fn x).1 }
    | raised_other e ↦ record { result = err (propagated e); waits = waits; state = (fn x).1 }
    | raised e ↦
        let later =
          retry_loop b left (suc attempt) (some e) (waits ++ wait_time b attempt ∷ []) (fn x).1 in
        if attempt == b.max_attempts
        then record {
          result = err (retry_exhausted b.max_attempts (some e));
          waits = waits;
          state = (fn x).1;
        }
        else later
  ]

  unfoldable pub retry_with_backoff : Backoff W → X → RetryRun W X A E
  unfolding retry_loop
  retry_with_backoff b x = retry_loop b b.max_attempts 1 none [] x
