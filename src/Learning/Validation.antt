-- ===== src/Learning/Validation.antt =====
-- `CandidateValidator` of aitos/learning/validation.py. Instants are those of the walk-forward
-- windows, so that midnight is the last multiple of a day.
pub mod Gates
use Prim.Native.String.{String}
use Prim.Native.Nat.{◌%◌}
use project_alpha.Common.{
  ℕ, ◌+◌, ◌-◌, Bool, true, false, not, ◌&&◌, Option, none, some, List, [], ◌∷◌, leb, ltb,
  if◌then◌else◌, Result, ok, err, ◌>>=◌,
}
use project_alpha.Common.Sort.{sort_by}
use project_alpha.Float.{Float, lit, lt, le}
use project_alpha.Backtest.Engine.{BacktestResult}
use project_alpha.Learning.WalkForward.{WalkForwardResult, Schedule, day, evaluate}

pub record ValidationPolicy (W : Type 0) : Type 0 where
  pub min_total_return : W
  pub max_drawdown : W
  pub min_sharpe : W
  pub min_trades : ℕ
  pub require_improvement_over_champion : Bool
  pub require_walk_forward : Bool
  pub train_days : ℕ
  pub test_days : ℕ
  pub holdout_days : ℕ
  pub min_positive_windows : ℕ

-- `candidate` is the result of the run over all the events.
pub record ValidationResult (W : Type 0) : Type 0 where
  pub passed : Bool
  pub reason : String
  pub candidate : BacktestResult W
  pub champion : Option (BacktestResult W)
  pub walk_forward : Option (WalkForwardResult W)

-- `min(e.timestamp for e in events)` and `max(...)` of events that are in order.
abbrev pub earliest : {E : Type 0} → (E → ℕ) → E → List E → ℕ
earliest timestamp e es = timestamp e

abbrev pub latest : {E : Type 0} → (E → ℕ) → E → List E → ℕ
latest timestamp e [] = timestamp e
latest timestamp e (d ∷ es) = latest timestamp d es

-- `end.replace(hour=0, minute=0, second=0, microsecond=0)`
abbrev pub midnight : ℕ → ℕ
midnight t = t - t % day

-- From the first event to the end of the day of the last.
unfoldable pub schedule_of : {W E : Type 0} → (E → ℕ) → ValidationPolicy W → E → List E → Schedule
schedule_of timestamp p e es = record {
  start = earliest timestamp e es;
  end_at = midnight (latest timestamp e es) + day;
  train_days = p.train_days;
  test_days = p.test_days;
  holdout_days = p.holdout_days;
}

module _ {W : Type 0} ⦃f : Float W⦄ where
  unfoldable pub default_policy : ValidationPolicy W
  default_policy = record {
    min_total_return = lit 0 0;
    max_drawdown = lit 25 2;
    min_sharpe = lit 0 0;
    min_trades = 1;
    require_improvement_over_champion = true;
    require_walk_forward = true;
    train_days = 180;
    test_days = 30;
    holdout_days = 30;
    min_positive_windows = 1;
  }

  -- The champion is given, and the candidate betters neither its return nor its drawdown.
  abbrev pub fails_to_improve :
      ValidationPolicy W → BacktestResult W → Option (BacktestResult W) → Bool
  fails_to_improve p c none = false
  fails_to_improve p c (some champion) =
      p.require_improvement_over_champion
      && le c.metrics.total_return champion.metrics.total_return
      && le champion.metrics.max_drawdown c.metrics.max_drawdown

  -- The gates on the candidate's metrics: the reason of the first that it does not pass.
  unfoldable pub failed_gate :
      ValidationPolicy W → BacktestResult W → Option (BacktestResult W) → Option String
  failed_gate p c champion =
      if lt c.metrics.total_return p.min_total_return
      then some "candidate return below minimum"
      else if lt p.max_drawdown c.metrics.max_drawdown
      then some "candidate drawdown above maximum"
      else if lt c.metrics.sharpe p.min_sharpe
      then some "candidate Sharpe below minimum"
      else if ltb c.metrics.trades p.min_trades
      then some "insufficient candidate trades"
      else if fails_to_improve p c champion
      then some "candidate does not improve return or drawdown"
      else none

  abbrev pub failed :
      String
      → BacktestResult W
      → Option (BacktestResult W)
      → Option (WalkForwardResult W)
      → ValidationResult W
  failed reason c champion walk_forward = record {
    passed = false;
    reason = reason;
    candidate = c;
    champion = champion;
    walk_forward = walk_forward;
  }

  abbrev pub succeeded :
      BacktestResult W
      → Option (BacktestResult W)
      → Option (WalkForwardResult W)
      → ValidationResult W
  succeeded c champion walk_forward = record {
    passed = true;
    reason = "candidate passed backtest and validation gates";
    candidate = c;
    champion = champion;
    walk_forward = walk_forward;
  }

  abbrev pub judged :
      BacktestResult W → Option (BacktestResult W) → WalkForwardResult W → ValidationResult W
  judged c champion w =
      if w.passed then succeeded c champion (some w) else failed w.reason c champion (some w)

  module _ {E R : Type 0} (timestamp : E → ℕ) (run : List E → Result R (BacktestResult W)) where
    -- The walk-forward part of `evaluate`.
    unfoldable pub walk_forward_gate :
        ℕ
        → ValidationPolicy W
        → BacktestResult W
        → Option (BacktestResult W)
        → List E
        → Option (Result R (ValidationResult W))
    unfolding schedule_of
    walk_forward_gate fuel p c champion [] =
        some (ok (failed "no events available for walk-forward validation" c champion none))
    walk_forward_gate fuel p c champion (e ∷ es) =
        if leb (midnight (latest timestamp e es)) (earliest timestamp e es)
        then some
            (ok (failed "insufficient temporal span for walk-forward validation" c champion none))
        else elim (evaluate timestamp run fuel p.min_positive_windows (schedule_of timestamp p e es)
            (e ∷ es)) [ none ↦ none | some r ↦ some (r >>= λ w. ok (judged c champion w)) ]

    abbrev pub gates :
        ℕ
        → ValidationPolicy W
        → List E
        → Option (BacktestResult W)
        → BacktestResult W
        → Option (Result R (ValidationResult W))
    gates fuel p events champion c = elim (failed_gate p c champion) [
      | some reason ↦ some (ok (failed reason c champion none))
      | none ↦
          if p.require_walk_forward
          then walk_forward_gate fuel p c champion events
          else some (ok (succeeded c champion none))
    ]

    -- `evaluate`; it gives `none` when the fuel of the windows is used up.
    unfoldable pub evaluate_candidate :
        ℕ
        → ValidationPolicy W
        → List E
        → Option (BacktestResult W)
        → Option (Result R (ValidationResult W))
    unfolding failed_gate walk_forward_gate
    evaluate_candidate fuel p candidate_events champion =
        let events = sort_by timestamp candidate_events in
        elim (run events) [ err e ↦ some (err e) | ok c ↦ gates fuel p events champion c ]
