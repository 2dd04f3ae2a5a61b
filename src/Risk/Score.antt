-- ===== src/Risk/Score.antt =====
-- The scores of aitos/risk/risk_engine.py. A note stands for the text that is made from its parts.
use Prim.Native.String.{String}
use text.Mathlib.Text.{◌==◌ as str_eq}
use project_alpha.Common.{Bool, List, [], ◌∷◌, ◌++◌, map, length, if◌then◌else◌}
use project_alpha.Float.{Float, ◌+◌, ◌-◌, ◌*◌, ◌/◌, lit, neg, round, lt, le, min, max, max_or}
use project_alpha.Risk.Models.{
  RiskAction, normal, reduce_size, no_new_entries, emergency_stop, RiskLimits, PortfolioState,
  current_drawdown_pct, max_position_leverage, sector_exposure_pct,
}

pub data Note (W : Type 0) : Type 0 where
  leverage_high : W → W → Note W
  regime_is : String → Note W
  correlation_high : W → Note W
  error_rate_elevated : W → Note W
  data_stale : W → Note W
  accuracy_degraded : W → Note W
  drawdown_near_limit : W → W → Note W
  sector_concentrated : Note W

module _ {W : Type 0} ⦃f : Float W⦄ where
  unfoldable pub pct_of_limit : W → W → W
  pct_of_limit value limit =
      if le limit (lit 0 0)
      then lit 100 0
      else max (lit 0 0) (min (value / limit * lit 100 0) (lit 100 0))

  abbrev pub note_if : Bool → Note W → List (Note W)
  note_if b n = if b then n ∷ [] else []

  unfoldable pub score_position_risk : PortfolioState W → RiskLimits W → W × List (Note W)
  score_position_risk p l =
      let leverage_score = pct_of_limit (max_position_leverage p) l.max_leverage in
      let by_count = pct_of_limit (lit (length p.positions) 0) (lit l.max_open_positions 0) in
      let largest_position_pct =
        if lt (lit 0 0) p.equity_usd
        then max_or (lit 0 0) (map (λ x. x.notional_usd) p.positions) / p.equity_usd * lit 100 0
        else lit 0 0 in
      let concentration_score =
        max by_count (pct_of_limit largest_position_pct l.max_sector_exposure_pct) in
      (
        round 2 (leverage_score * lit 6 1 + concentration_score * lit 4 1),
        note_if (lt (lit 80 0) leverage_score)
            (leverage_high (max_position_leverage p) l.max_leverage),
      )

  unfoldable pub regime_penalty : String → W
  regime_penalty regime =
      if str_eq regime "normal"
      then lit 0 0
      else if str_eq regime "trending"
      then lit 10 0
      else if str_eq regime "volatile"
      then lit 35 0
      else if str_eq regime "crisis"
      then lit 70 0
      else lit 20 0

  unfoldable pub score_market_risk : PortfolioState W → RiskLimits W → W × List (Note W)
  unfolding regime_penalty
  score_market_risk p l =
      let vol_score = max (lit 0 0) (min p.volatility_percentile (lit 100 0)) in
      let penalty = regime_penalty p.regime in
      let correlation_score =
        pct_of_limit (p.max_pairwise_correlation * lit 100 0)
          (l.max_correlated_exposure_pct * lit 4 0) in
      (
        round 2 (min (lit 100 0) (vol_score * lit 5 1 + penalty + correlation_score * lit 2 1)),
        note_if (le (lit 35 0) penalty) (regime_is p.regime)
            ++ note_if (lt (lit 8 1) p.max_pairwise_correlation)
                (correlation_high p.max_pairwise_correlation),
      )

  unfoldable pub score_system_risk : PortfolioState W → RiskLimits W → W × List (Note W)
  score_system_risk p l =
      let error_score = pct_of_limit p.api_error_rate_pct (lit 5 0) in
      let latency_score = pct_of_limit p.api_latency_ms (lit 2000 0) in
      let freshness_score =
        pct_of_limit p.data_freshness_seconds l.min_data_freshness_hard_cap_seconds in
      let accuracy_score =
        if lt p.model_accuracy (lit 6 1)
        then max (lit 0 0) ((lit 6 1 - p.model_accuracy) / lit 6 1 * lit 100 0)
        else lit 0 0 in
      (
        round 2 (
            min
              (error_score * lit 35 2
                + latency_score * lit 15 2
                + freshness_score * lit 2 1
                + accuracy_score * lit 3 1)
              (lit 100 0)),
        note_if (lt (lit 5 0) p.api_error_rate_pct) (error_rate_elevated p.api_error_rate_pct)
            ++ (note_if (lt l.min_data_freshness_seconds p.data_freshness_seconds)
                  (data_stale p.data_freshness_seconds)
                ++ note_if (lt (lit 0 0) accuracy_score) (accuracy_degraded p.model_accuracy)),
      )

  unfoldable pub score_portfolio_risk : PortfolioState W → RiskLimits W → W × List (Note W)
  score_portfolio_risk p l =
      let drawdown = current_drawdown_pct p in
      let drawdown_score = pct_of_limit drawdown l.max_drawdown_pct in
      let daily_loss_score =
        pct_of_limit (max (lit 0 0) (neg p.daily_pnl_pct)) l.max_risk_per_day_pct in
      let weekly_loss_score =
        pct_of_limit (max (lit 0 0) (neg p.weekly_pnl_pct)) l.max_risk_per_week_pct in
      let max_sector_score =
        max_or (lit 0 0)
          (map (λ e. pct_of_limit e.1 l.max_sector_exposure_pct) (sector_exposure_pct p)) in
      (
        round 2 (
            min
              (drawdown_score * lit 4 1
                + daily_loss_score * lit 2 1
                + weekly_loss_score * lit 2 1
                + max_sector_score * lit 2 1)
              (lit 100 0)),
        note_if (lt (l.max_drawdown_pct * lit 7 1) drawdown)
              (drawdown_near_limit drawdown l.max_drawdown_pct)
            ++ note_if (lt (lit 80 0) max_sector_score) sector_concentrated,
      )

  unfoldable pub action_for_score : W → RiskAction
  action_for_score total =
      if lt (lit 95 0) total
      then emergency_stop
      else if lt (lit 85 0) total
      then no_new_entries
      else if lt (lit 70 0) total
      then reduce_size
      else normal
