-- ===== src/Risk/Models.antt =====
-- aitos/risk/models.py, over an abstract type of floats. The creation times (`timestamp`,
-- `computed_at`), which no decision reads, are left out.
use Prim.Native.String.{String}
use text.Mathlib.Text.{◌==◌ as str_eq}
use project_alpha.Common.{ℕ, Bool, not, ◌&&◌, ◌||◌, List, [], ◌∷◌, map, all, if◌then◌else◌}
use project_alpha.Common.{leb as leb_ℕ}
use project_alpha.Float.{Float, ◌+◌, ◌-◌, ◌*◌, ◌/◌, lit, lt, le, max, sum, max_or}
use project_alpha.Risk.Sector.{sector_for_symbol}

pub data RiskAction : Type 0 where
  normal reduce_size no_new_entries emergency_stop : RiskAction

pub record RiskLimits (W : Type 0) : Type 0 where
  pub max_risk_per_trade_pct : W
  pub max_risk_per_trade_hard_cap_pct : W
  pub max_risk_per_day_pct : W
  pub max_risk_per_day_hard_cap_pct : W
  pub max_risk_per_week_pct : W
  pub max_risk_per_week_hard_cap_pct : W
  pub max_drawdown_pct : W
  pub max_drawdown_hard_cap_pct : W
  pub max_leverage : W
  pub max_leverage_hard_cap : W
  pub max_correlated_exposure_pct : W
  pub max_correlated_exposure_hard_cap_pct : W
  pub max_sector_exposure_pct : W
  pub max_sector_exposure_hard_cap_pct : W
  pub max_open_positions : ℕ
  pub max_open_positions_hard_cap : ℕ
  pub min_data_freshness_seconds : W
  pub min_data_freshness_hard_cap_seconds : W

pub record PositionExposure (W : Type 0) : Type 0 where
  pub symbol : String
  pub notional_usd : W
  pub leverage : W
  pub sector : String

pub record PortfolioState (W : Type 0) : Type 0 where
  pub equity_usd : W
  pub peak_equity_usd : W
  pub positions : List (PositionExposure W)
  pub daily_pnl_pct : W
  pub weekly_pnl_pct : W
  pub volatility_percentile : W
  pub regime : String
  pub max_pairwise_correlation : W
  pub api_error_rate_pct : W
  pub api_latency_ms : W
  pub data_freshness_seconds : W
  pub model_accuracy : W

-- The limits by their names in the source; one for each sector.
pub data LimitName : Type 0 where
  max_drawdown_pct max_leverage max_open_positions max_risk_per_day_pct : LimitName
  max_risk_per_week_pct max_correlated_exposure_pct min_data_freshness_seconds : LimitName
  max_sector_exposure_pct : String → LimitName

-- The message is a rendering of the four fields.
pub record LimitBreach (W : Type 0) : Type 0 where
  pub limit_name : LimitName
  pub limit_value : W
  pub observed_value : W
  pub is_hard_cap : Bool

pub record PositionSizeResult (W : Type 0) : Type 0 where
  pub position_size_usd : W
  pub leverage : W
  pub risk_amount_usd : W

-- The default values of `RiskLimits`.
unfoldable pub default_limits : {W : Type 0} ⦃f : Float W⦄ → RiskLimits W
default_limits = record {
  max_risk_per_trade_pct = lit 1 0;
  max_risk_per_trade_hard_cap_pct = lit 2 0;
  max_risk_per_day_pct = lit 3 0;
  max_risk_per_day_hard_cap_pct = lit 5 0;
  max_risk_per_week_pct = lit 5 0;
  max_risk_per_week_hard_cap_pct = lit 10 0;
  max_drawdown_pct = lit 10 0;
  max_drawdown_hard_cap_pct = lit 20 0;
  max_leverage = lit 10 0;
  max_leverage_hard_cap = lit 125 0;
  max_correlated_exposure_pct = lit 15 0;
  max_correlated_exposure_hard_cap_pct = lit 25 0;
  max_sector_exposure_pct = lit 20 0;
  max_sector_exposure_hard_cap_pct = lit 40 0;
  max_open_positions = 10;
  max_open_positions_hard_cap = 20;
  min_data_freshness_seconds = lit 5 0;
  min_data_freshness_hard_cap_seconds = lit 30 0;
}

module _ {W : Type 0} ⦃f : Float W⦄ where
  -- The fields with `gt=0`.
  unfoldable pub positive_fields : RiskLimits W → List W
  positive_fields l =
      l.max_risk_per_trade_pct ∷ l.max_risk_per_trade_hard_cap_pct ∷ l.max_risk_per_day_pct
      ∷ l.max_risk_per_day_hard_cap_pct ∷ l.max_risk_per_week_pct ∷ l.max_risk_per_week_hard_cap_pct
      ∷ l.max_drawdown_pct ∷ l.max_drawdown_hard_cap_pct ∷ l.max_correlated_exposure_pct
      ∷ l.max_correlated_exposure_hard_cap_pct ∷ l.max_sector_exposure_pct
      ∷ l.max_sector_exposure_hard_cap_pct ∷ l.min_data_freshness_seconds
      ∷ l.min_data_freshness_hard_cap_seconds ∷ []

  -- The field validators, with the `ge=1` of the leverages and the counts.
  unfoldable pub fields_in_range : RiskLimits W → Bool
  fields_in_range l =
      all (lt (lit 0 0)) (positive_fields l)
      && (all (le (lit 1 0)) (l.max_leverage ∷ l.max_leverage_hard_cap ∷ [])
          && all (leb_ℕ 1) (l.max_open_positions ∷ l.max_open_positions_hard_cap ∷ []))

  -- `getattr(self, default_field) > getattr(self, cap_field)` raises.
  abbrev pub within_cap : W × W → Bool
  within_cap (default_limit, cap) = not (lt cap default_limit)

  unfoldable pub capped_pairs : RiskLimits W → List (W × W)
  capped_pairs l =
      (l.max_risk_per_trade_pct, l.max_risk_per_trade_hard_cap_pct)
      ∷ (l.max_risk_per_day_pct, l.max_risk_per_day_hard_cap_pct)
      ∷ (l.max_risk_per_week_pct, l.max_risk_per_week_hard_cap_pct)
      ∷ (l.max_drawdown_pct, l.max_drawdown_hard_cap_pct)
      ∷ (l.max_leverage, l.max_leverage_hard_cap)
      ∷ (l.max_correlated_exposure_pct, l.max_correlated_exposure_hard_cap_pct)
      ∷ (l.max_sector_exposure_pct, l.max_sector_exposure_hard_cap_pct)
      ∷ (l.min_data_freshness_seconds, l.min_data_freshness_hard_cap_seconds)
      ∷ []

  -- `_defaults_within_hard_caps`: whether the validator accepts. The pair of counts stands apart.
  unfoldable pub defaults_within_hard_caps : RiskLimits W → Bool
  defaults_within_hard_caps l =
      all within_cap (capped_pairs l) && leb_ℕ l.max_open_positions l.max_open_positions_hard_cap

  -- The constructor with `__post_init__`: a missing sector is looked up.
  unfoldable pub position_exposure : String → W → W → String → PositionExposure W
  position_exposure symbol notional leverage sector = record {
    symbol = symbol;
    notional_usd = notional;
    leverage = leverage;
    sector =
        if str_eq sector "" || str_eq sector "unclassified"
        then sector_for_symbol symbol
        else sector;
  }

  unfoldable pub current_drawdown_pct : PortfolioState W → W
  current_drawdown_pct p =
      if le p.peak_equity_usd (lit 0 0)
      then lit 0 0
      else max (lit 0 0) ((p.peak_equity_usd - p.equity_usd) / p.peak_equity_usd * lit 100 0)

  unfoldable pub gross_exposure_usd : PortfolioState W → W
  gross_exposure_usd p = sum (map (λ x. x.notional_usd) p.positions)

  unfoldable pub max_position_leverage : PortfolioState W → W
  max_position_leverage p = max_or (lit 0 0) (map (λ x. x.leverage) p.positions)

  -- `totals[sector] = totals.get(sector, 0.0) + notional`, in insertion order.
  unfoldable pub add_total : String → W → List (String × W) → List (String × W)
  add_total sector notional [] = (sector, lit 0 0 + notional) ∷ []
  add_total sector notional ((s, total) ∷ rest) =
      if str_eq s sector
      then (s, total + notional) ∷ rest
      else (s, total) ∷ add_total sector notional rest

  unfoldable pub sector_totals : List (PositionExposure W) → List (String × W) → List (String × W)
  sector_totals [] totals = totals
  sector_totals (x ∷ xs) totals =
      sector_totals xs
        (add_total (if str_eq x.sector "" then "other" else x.sector) x.notional_usd totals)

  unfoldable pub sector_exposure_pct : PortfolioState W → List (String × W)
  unfolding sector_totals add_total
  sector_exposure_pct p =
      if le p.equity_usd (lit 0 0)
      then []
      else map (λ e. (e.0, e.1 / p.equity_usd * lit 100 0)) (sector_totals p.positions [])
