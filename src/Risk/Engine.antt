-- ===== src/Risk/Engine.antt =====
-- `RiskEngine` of aitos/risk/risk_engine.py. The event bus is the list of what was published. The
-- clock readings of a call are its last argument, and `render` makes the text of a reason.
pub mod Laws
use Prim.Native.String.{String}
use project_alpha.Common.{
  ℕ, Bool, true, false, not, ◌||◌, Option, none, some, List, [], ◌∷◌, ◌++◌, if◌then◌else◌,
}
use project_alpha.Float.{Float, ◌+◌, ◌*◌, lit, round}
use project_alpha.Risk.Breaker.{
  CircuitBreakerState, CircuitBreaker, is_trading_allowed, trip, attempt_half_open,
}
use project_alpha.Risk.Models.{
  RiskAction, normal, reduce_size, no_new_entries, emergency_stop, RiskLimits, PortfolioState,
  LimitBreach,
}
use project_alpha.Risk.Limits.{check_limits, absolute_hard_cap_breaches}
use project_alpha.Risk.Score.{
  Note, score_position_risk, score_market_risk, score_system_risk, score_portfolio_risk,
  action_for_score,
}

pub record RiskScoreBreakdown (W : Type 0) : Type 0 where
  pub position_risk : W
  pub market_risk : W
  pub system_risk : W
  pub portfolio_risk : W
  pub total : W
  pub action : RiskAction
  pub explanation : List (Note W)

-- Why an emergency stop is triggered by `assess`.
pub data StopReason (W : Type 0) : Type 0 where
  score_above : W → StopReason W
  hard_cap_breach : LimitBreach W → StopReason W

pub data RiskEvent (W : Type 0) : Type 0 where
  score_update : RiskScoreBreakdown W → RiskEvent W
  emergency_stopped : String → CircuitBreakerState → RiskEvent W
  circuit_breaker_moved : CircuitBreakerState → RiskEvent W

pub record RiskEngine (W : Type 0) : Type 0 where
  pub limits : RiskLimits W
  pub circuit_breaker : CircuitBreaker
  pub initialized : Bool
  pub last_assessment : Option (RiskScoreBreakdown W)
  pub published : List (RiskEvent W)

-- `none` is `ModuleNotInitializedError`.
abbrev pub require_initialized : {W : Type 0} {A : Type 0} → RiskEngine W → A → Option A
require_initialized e a = if e.initialized then some a else none

abbrev pub is_emergency : RiskAction → Bool
is_emergency emergency_stop = true
is_emergency _ = false

-- `action in (NO_NEW_ENTRIES, EMERGENCY_STOP)`
abbrev pub blocks_entries : RiskAction → Bool
blocks_entries no_new_entries = true
blocks_entries emergency_stop = true
blocks_entries _ = false

unfoldable pub initialize : {W : Type 0} → RiskEngine W → RiskEngine W
initialize e = record e { initialized = true }

module _ {W : Type 0} ⦃f : Float W⦄ where
  -- The weighted sum of the four components, by `COMPONENT_WEIGHTS`.
  unfoldable pub total_score : PortfolioState W → RiskLimits W → W
  total_score p l =
      (score_position_risk p l).0 * lit 3 1
      + (score_market_risk p l).0 * lit 25 2
      + (score_system_risk p l).0 * lit 15 2
      + (score_portfolio_risk p l).0 * lit 3 1

  unfoldable pub breakdown_of : PortfolioState W → RiskLimits W → RiskScoreBreakdown W
  breakdown_of p l = record {
    position_risk = (score_position_risk p l).0;
    market_risk = (score_market_risk p l).0;
    system_risk = (score_system_risk p l).0;
    portfolio_risk = (score_portfolio_risk p l).0;
    total = round 2 (total_score p l);
    action = action_for_score (total_score p l);
    explanation =
        (score_position_risk p l).1
        ++ ((score_market_risk p l).1
            ++ ((score_system_risk p l).1 ++ (score_portfolio_risk p l).1));
  }

  -- The part of `trigger_emergency_stop` behind its guard.
  unfoldable pub stop : RiskEngine W → String → ℕ → RiskEngine W
  stop e reason now =
      let b = trip e.circuit_breaker reason now in
      record e {
        circuit_breaker = b;
        published = e.published ++ emergency_stopped reason b.state ∷ [];
      }

  unfoldable pub trigger_emergency_stop : RiskEngine W → String → ℕ → Option (RiskEngine W)
  unfolding stop
  trigger_emergency_stop e reason now = require_initialized e (stop e reason now)

  -- The reason for which `assess` stops, if it does.
  unfoldable pub stop_reason : RiskAction → W → List (LimitBreach W) → Option (StopReason W)
  stop_reason emergency_stop total breaches = some (score_above total)
  stop_reason _ total [] = none
  stop_reason _ total (b ∷ bs) = some (hard_cap_breach b)

  -- The end of `assess`, once the score is published.
  unfoldable pub stop_if :
      (StopReason W → String) → Option (StopReason W) → ℕ → RiskEngine W → RiskEngine W
  unfolding stop
  stop_if render none now e = e
  stop_if render (some r) now e = stop e (render r) now

  unfoldable pub assess :
      (StopReason W → String)
      → RiskEngine W
      → PortfolioState W
      → ℕ
      → Option (RiskScoreBreakdown W × RiskEngine W)
  unfolding stop_if stop_reason
  assess render e p now =
      let b = breakdown_of p e.limits in
      let scored = record e {
        last_assessment = some b;
        published = e.published ++ score_update b ∷ [];
      } in
      require_initialized e (
        b,
        stop_if render
            (stop_reason b.action (total_score p e.limits) (absolute_hard_cap_breaches p e.limits))
            now scored,
      )

  unfoldable pub engine_check_limits :
      RiskEngine W → PortfolioState W → Option (List (LimitBreach W))
  engine_check_limits e p = require_initialized e (check_limits p e.limits)

  unfoldable pub attempt_recovery : RiskEngine W → ℕ → ℕ → Option (Bool × RiskEngine W)
  attempt_recovery e now later =
      let (b, transitioned) = attempt_half_open e.circuit_breaker now later in
      require_initialized e (
        transitioned,
        record e {
          circuit_breaker = b;
          published =
              if transitioned
              then e.published ++ circuit_breaker_moved b.state ∷ []
              else e.published;
        },
      )

-- Why `veto` refuses; `none` is "within limits".
pub data VetoReason (W : Type 0) : Type 0 where
  breaker_is : CircuitBreakerState → VetoReason W
  score_triggers : W → RiskAction → VetoReason W

abbrev pub veto_by_score : {W : Type 0} → Option (RiskScoreBreakdown W) → Option (VetoReason W)
veto_by_score none = none
veto_by_score (some b) =
    if blocks_entries b.action then some (score_triggers b.total b.action) else none

unfoldable pub veto : {W : Type 0} → RiskEngine W → Option (VetoReason W)
veto e =
    if not (is_trading_allowed e.circuit_breaker)
    then some (breaker_is e.circuit_breaker.state)
    else veto_by_score e.last_assessment
