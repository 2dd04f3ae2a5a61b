-- ===== src/Risk/Sizing/Laws.antt =====
-- The caps that a computed position size respects.
use project_alpha.Common.{◌≡◌, refl, true, some, arith, ok}
use project_alpha.Float.{
  Float, IsOrdered, IsNumber, ◌-◌, ◌*◌, ◌/◌, lit, round, le, le_of_lt, le_of_not_lt, clamp_bounds,
}
use project_alpha.Risk.Models.{RiskLimits, PositionSizeResult}
use project_alpha.Risk.Sizing.{
  SizingRequest, kelly_fraction, damped_leverage, calculate_adaptive_leverage,
  available_sector_notional, sector_capped, capped, request_leverage, request_risk, uncapped_size,
  calculate_position_size,
}

module _ {W : Type 0} ⦃f : Float W⦄ (o : IsOrdered W) where
  capped-le : (cap size : W) → IsNumber cap → IsNumber size → le (capped cap size) cap ≡ true
  capped-le cap size nc ns = ground (arith, le_of_not_lt o cap size nc ns)

  capped-le_size : (cap size : W) → IsNumber size → le (capped cap size) size ≡ true
  capped-le_size cap size ns = ground (arith, le_of_lt o cap size)

  capped_twice :
      (a b x : W)
      → IsNumber a
      → IsNumber b
      → IsNumber x
      → (le (capped a (capped b x)) b ≡ true) × (le (capped a (capped b x)) a ≡ true)
  capped_twice a b x na nb nx =
      let below = capped-le b x nb nx in
      let (n, _) = o.numbers_of_le (capped b x) b below in
      (o.le_trans _ _ _ (capped-le_size a (capped b x) n) below, capped-le a (capped b x) na n)

  -- The Kelly fraction, where it is defined and the value that it clamps is a number, lies between 0
  -- and 1.
  kelly_fraction_bounds :
      (win_rate ratio : W) {kf : W}
      → IsNumber (win_rate - (lit 1 0 - win_rate) / ratio)
      → kelly_fraction win_rate ratio ≡ ok kf
      → (le (lit 0 0) kf ≡ true) × (le kf (lit 1 0) ≡ true)
  unfolding kelly_fraction
  kelly_fraction_bounds win_rate ratio n e = ground (
    arith,
    clamp_bounds o (lit 0 0) (lit 1 0) (win_rate - (lit 1 0 - win_rate) / ratio),
    o.lit_le 0 1,
  )

  -- The adaptive leverage is the rounding of a value between 1 and the configured maximum, if that is
  -- at least 1 and the leverage before clamping is a number.
  adaptive_leverage_bounds :
      (volatility score : W) (l : RiskLimits W) (base : W)
      → le (lit 1 0) l.max_leverage ≡ true
      → IsNumber (damped_leverage volatility score base)
      → (x : W) × (calculate_adaptive_leverage volatility score l base ≡ round 2 x)
        × (le (lit 1 0) x ≡ true)
        × (le x l.max_leverage ≡ true)
  unfolding calculate_adaptive_leverage
  adaptive_leverage_bounds volatility score l base h n =
      let (low, high) = clamp_bounds o (lit 1 0) l.max_leverage _ h n in (_, refl, low, high)

  -- A size that is computed under a sector limit is the rounding of a notional that exceeds
  -- neither the equity times the leverage nor what the sector limit leaves, provided that the
  -- uncapped size and the two caps are numbers.
  pub position_size_caps :
      (r : SizingRequest W) (pct risk_pct : W) {s : PositionSizeResult W}
      → r.sector_limit_pct ≡ some pct
      → request_risk r ≡ ok risk_pct
      → IsNumber (uncapped_size r risk_pct)
      → IsNumber (r.equity_usd * request_leverage r)
      → IsNumber (available_sector_notional r pct)
      → calculate_position_size r ≡ ok s
      → let x =
          capped
            (available_sector_notional r pct)
            (capped (r.equity_usd * request_leverage r) (uncapped_size r risk_pct)) in
        (s.position_size_usd ≡ round 2 x)
        × (le x (r.equity_usd * s.leverage) ≡ true)
        × (le x (available_sector_notional r pct) ≡ true)
  unfolding calculate_position_size sector_capped
  position_size_caps r pct risk_pct e k ns nl na h = ground (
    arith,
    capped_twice (available_sector_notional r pct) (r.equity_usd * request_leverage r)
        (uncapped_size r risk_pct) na nl ns,
  )
