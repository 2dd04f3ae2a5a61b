-- ===== src/Risk/Sizing.antt =====
-- aitos/risk/position_sizing.py. The rationale text is left out.
pub mod Laws
use project_alpha.Common.{
  Bool, true, false, not, ◌&&◌, ◌||◌, Option, none, some, if◌then◌else◌, Result, ok, err, ◌>>=◌,
  ◌>>◌, raise_if,
}
use project_alpha.Float.{Float, ◌+◌, ◌-◌, ◌*◌, ◌/◌, lit, abs, round, lt, le, min, max}
use project_alpha.Risk.Models.{RiskLimits, PositionSizeResult}

-- The messages of the `ValueError`s.
pub data SizingError : Type 0 where
  win_rate_out_of_range win_loss_ratio_not_positive equity_not_positive : SizingError
  stop_equals_entry existing_notional_negative sector_limit_not_positive : SizingError

-- The keyword arguments of `calculate_position_size`.
pub record SizingRequest (W : Type 0) : Type 0 where
  pub equity_usd : W
  pub entry_price : W
  pub stop_loss_price : W
  pub risk_limits : RiskLimits W
  pub risk_score : W
  pub win_rate : Option W
  pub win_loss_ratio : Option W
  pub volatility_percentile : W
  pub correlation_penalty : W
  pub requested_risk_pct : Option W
  pub base_leverage : W
  pub existing_sector_notional_usd : W
  pub sector_limit_pct : Option W

module _ {W : Type 0} ⦃f : Float W⦄ where
  unfoldable pub kelly_fraction : W → W → Result SizingError W
  kelly_fraction win_rate win_loss_ratio = do
    raise_if (not (le (lit 0 0) win_rate && le win_rate (lit 1 0))) win_rate_out_of_range
    raise_if (le win_loss_ratio (lit 0 0)) win_loss_ratio_not_positive
    ok (max (lit 0 0) (min (win_rate - (lit 1 0 - win_rate) / win_loss_ratio) (lit 1 0)))

  -- The leverage before it is clamped and rounded.
  unfoldable pub damped_leverage : W → W → W → W
  damped_leverage volatility_percentile risk_score base_leverage =
      let vol = max (lit 0 0) (min volatility_percentile (lit 100 0)) in
      let score = max (lit 0 0) (min risk_score (lit 100 0)) in
      base_leverage
      * (lit 1 0 - vol / lit 100 0 * lit 8 1)
      * (lit 1 0 - score / lit 100 0 * lit 9 1)

  unfoldable pub calculate_adaptive_leverage : W → W → RiskLimits W → W → W
  calculate_adaptive_leverage volatility_percentile risk_score limits base_leverage = round 2 (
      max (lit 1 0)
        (min (damped_leverage volatility_percentile risk_score base_leverage) limits.max_leverage))

  -- `max(min(kf / 0.5, 1.0), 0.1) if kf > 0 else 0.1`
  unfoldable pub kelly_scalar : W → W
  kelly_scalar kf =
      if lt (lit 0 0) kf then max (min (kf / lit 5 1) (lit 1 0)) (lit 1 1) else lit 1 1

  -- The risk per trade, scaled by Kelly where both arguments are given.
  unfoldable pub kelly_scaled : W → Option W → Option W → Result SizingError W
  unfolding kelly_scalar
  kelly_scaled risk_pct (some win_rate) (some ratio) = do
    kf ← kelly_fraction win_rate ratio
    ok (risk_pct * kelly_scalar kf)
  kelly_scaled risk_pct (some win_rate) none = ok risk_pct
  kelly_scaled risk_pct none ratio = ok risk_pct

  abbrev pub or_default : Option W → W → W
  or_default none d = d
  or_default (some x) d = x

  -- The share of the equity to risk, after the volatility and correlation factors.
  unfoldable pub damped_risk : SizingRequest W → W → W
  damped_risk r risk_pct =
      let vol_factor =
        lit 1 0 - max (lit 0 0) (min r.volatility_percentile (lit 100 0)) / lit 100 0 * lit 5 1 in
      let corr_factor = lit 1 0 - max (lit 0 0) (min r.correlation_penalty (lit 1 0)) * lit 5 1 in
      risk_pct * (vol_factor * corr_factor)

  -- `if size > cap: size = cap`
  abbrev pub capped : W → W → W
  capped cap size = if lt cap size then cap else size

  unfoldable pub available_sector_notional : SizingRequest W → W → W
  available_sector_notional r pct =
      max (lit 0 0) (r.equity_usd * (pct / lit 100 0) - r.existing_sector_notional_usd)

  unfoldable pub sector_capped : SizingRequest W → Option W → W → Result SizingError W
  unfolding available_sector_notional
  sector_capped r none size = ok size
  sector_capped r (some pct) size = do
    raise_if (le pct (lit 0 0)) sector_limit_not_positive
    ok (capped (available_sector_notional r pct) size)

  unfoldable pub request_leverage : SizingRequest W → W
  request_leverage r =
      calculate_adaptive_leverage r.volatility_percentile r.risk_score r.risk_limits r.base_leverage

  -- The risk per trade that is asked for, below its hard cap, and scaled by Kelly.
  unfoldable pub request_risk : SizingRequest W → Result SizingError W
  unfolding kelly_scaled
  request_risk r =
      let asked = or_default r.requested_risk_pct r.risk_limits.max_risk_per_trade_pct in
      kelly_scaled (min asked r.risk_limits.max_risk_per_trade_hard_cap_pct) r.win_rate
        r.win_loss_ratio

  unfoldable pub risk_amount : SizingRequest W → W → W
  unfolding damped_risk
  risk_amount r risk_pct = r.equity_usd * (damped_risk r risk_pct / lit 100 0)

  -- The notional before it is capped.
  unfoldable pub uncapped_size : SizingRequest W → W → W
  unfolding risk_amount
  uncapped_size r risk_pct =
      risk_amount r risk_pct / abs (r.entry_price - r.stop_loss_price) * r.entry_price

  unfoldable pub calculate_position_size :
      SizingRequest W → Result SizingError (PositionSizeResult W)
  calculate_position_size r = do
    raise_if (le r.equity_usd (lit 0 0)) equity_not_positive
    raise_if (le (abs (r.entry_price - r.stop_loss_price)) (lit 0 0)) stop_equals_entry
    raise_if (lt r.existing_sector_notional_usd (lit 0 0)) existing_notional_negative
    risk_pct ← request_risk r
    let leverage = request_leverage r
    let size = capped (r.equity_usd * leverage) (uncapped_size r risk_pct)
    notional ← sector_capped r r.sector_limit_pct size
    ok (record {
      position_size_usd = round 2 notional;
      leverage = leverage;
      risk_amount_usd = round 2 (risk_amount r risk_pct);
    })
