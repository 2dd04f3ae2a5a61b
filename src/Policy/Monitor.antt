-- ===== src/Policy/Monitor.antt =====
-- `PolicyMonitor` of aitos/journal/policy_monitor.py. An outcome is its `r_multiple`, if that is a
-- number; the counts `window_size` and `min_observations` are natural numbers.
pub mod Window
use Prim.Native.String.{String}
use project_alpha.Common.{
  ℕ, zero, suc, Bool, ◌&&◌, ◌||◌, Option, none, some, List, [], ◌∷◌, ◌++◌, length, select, leb, ltb,
  if◌then◌else◌,
}
use project_alpha.Float.{Float, ◌-◌, ◌/◌, lit, abs, lt, le, sum}

pub data HealthReason : Type 0 where
  rollback_advised insufficient_observations policy_within_guardrails : HealthReason

pub record PolicyHealth (W : Type 0) : Type 0 where
  pub version : String
  pub observations : ℕ
  pub avg_r : W
  pub win_rate : W
  pub baseline_avg_r : W
  pub degradation : W
  pub rollback_recommended : Bool
  pub reason : HealthReason

pub record PolicyMonitor (W : Type 0) : Type 0 where
  pub version : String
  pub baseline_avg_r : W
  pub window_size : ℕ
  pub min_observations : ℕ
  pub max_degradation : W
  pub min_avg_r : W
  pub outcomes : List W

-- `max(1, n)`
abbrev pub at_least_one : ℕ → ℕ
at_least_one n = if leb n 1 then 1 else n

unfoldable pub new_monitor : {W : Type 0} → String → W → ℕ → ℕ → W → W → PolicyMonitor W
new_monitor version baseline window_size min_observations max_degradation min_avg_r = record {
  version = version;
  baseline_avg_r = baseline;
  window_size = at_least_one window_size;
  min_observations = at_least_one min_observations;
  max_degradation = max_degradation;
  min_avg_r = min_avg_r;
  outcomes = [];
}

abbrev pub drop_first : {A : Type 0} → List A → List A
drop_first [] = []
drop_first (x ∷ xs) = xs

-- `append` to a `deque` with `maxlen`: a full one loses its first element.
unfoldable pub push_outcome : {W : Type 0} → ℕ → List W → W → List W
push_outcome limit xs x =
    let longer = xs ++ x ∷ [] in if ltb limit (length longer) then drop_first longer else longer

module _ {W : Type 0} ⦃f : Float W⦄ where
  -- `sum(xs) / n`, or 0 without any.
  abbrev pub mean_or_zero : W → ℕ → W
  mean_or_zero total zero = lit 0 0
  mean_or_zero total (suc n) = total / lit (suc n) 0

  unfoldable pub average_r : PolicyMonitor W → W
  average_r m = mean_or_zero (sum m.outcomes) (length m.outcomes)

  unfoldable pub degradation_of : PolicyMonitor W → W
  degradation_of m =
      if lt (lit 0 0) m.baseline_avg_r
      then (m.baseline_avg_r - average_r m) / abs m.baseline_avg_r
      else lit 0 0

  unfoldable pub is_bad : PolicyMonitor W → Bool
  is_bad m =
      leb m.min_observations (length m.outcomes)
      && (lt (average_r m) m.min_avg_r || le m.max_degradation (degradation_of m))

  unfoldable pub health : PolicyMonitor W → PolicyHealth W
  health m = record {
    version = m.version;
    observations = length m.outcomes;
    avg_r = average_r m;
    win_rate = mean_or_zero (lit (length (select (lt (lit 0 0)) m.outcomes)) 0) (length m.outcomes);
    baseline_avg_r = m.baseline_avg_r;
    degradation = degradation_of m;
    rollback_recommended = is_bad m;
    reason =
        if is_bad m
        then rollback_advised
        else if ltb (length m.outcomes) m.min_observations
        then insufficient_observations
        else policy_within_guardrails;
  }

  abbrev pub recorded : PolicyMonitor W → Option W → PolicyMonitor W
  recorded m none = m
  recorded m (some r) = record m { outcomes = push_outcome m.window_size m.outcomes r }

  unfoldable pub record_outcome : PolicyMonitor W → Option W → PolicyHealth W × PolicyMonitor W
  record_outcome m r = (health (recorded m r), recorded m r)

  abbrev pub baseline_or : W → Option W → W
  baseline_or d none = d
  baseline_or d (some b) = b

  unfoldable pub reset_monitor : PolicyMonitor W → String → Option W → PolicyMonitor W
  reset_monitor m version baseline = record m {
    version = version;
    baseline_avg_r = baseline_or m.baseline_avg_r baseline;
    outcomes = [];
  }

  -- The loop of `evaluate_policy_health`.
  record_outcomes : List (Option W) → PolicyMonitor W → PolicyMonitor W
  record_outcomes [] m = m
  record_outcomes (r ∷ rs) m = record_outcomes rs (record_outcome m r).1

  unfoldable pub evaluate_policy_health : String → List (Option W) → W → ℕ → W → W → PolicyHealth W
  unfolding record_outcomes
  evaluate_policy_health version outcomes baseline min_observations max_degradation min_avg_r =
      health (
        record_outcomes outcomes (
          new_monitor version baseline (length outcomes) min_observations max_degradation
            min_avg_r))
