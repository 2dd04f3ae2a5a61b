-- ===== src/Risk/Limits.antt =====
-- `check_limits` and `_absolute_hard_cap_breaches` of aitos/risk/risk_engine.py.
pub mod Laws
use Prim.Native.String.{String}
use project_alpha.Common.{Bool, true, false, List, [], ◌∷◌, ◌++◌, length, if◌then◌else◌}
use project_alpha.Float.{Float, ◌*◌, lit, neg, lt, max}
use project_alpha.Risk.Models.{
  RiskLimits, PortfolioState, LimitName, LimitBreach, current_drawdown_pct, max_position_leverage,
  sector_exposure_pct,
}

module _ {W : Type 0} ⦃f : Float W⦄ where
  abbrev pub breach : LimitName → W → W → Bool → LimitBreach W
  breach name limit observed hard = record {
    limit_name = name;
    limit_value = limit;
    observed_value = observed;
    is_hard_cap = hard;
  }

  -- `_check`: the breaches that one call appends.
  unfoldable pub check : LimitName → W → W → W → List (LimitBreach W)
  check name observed default_limit hard_cap =
      if lt hard_cap observed
      then breach name hard_cap observed true ∷ []
      else if lt default_limit observed
      then breach name default_limit observed false ∷ []
      else []

  -- The loop of `check_limits` over the sectors.
  unfoldable pub check_sectors : W → W → List (String × W) → List (LimitBreach W)
  unfolding check
  check_sectors default_limit hard_cap [] = []
  check_sectors default_limit hard_cap ((sector, pct) ∷ rest) =
      check (LimitName.max_sector_exposure_pct sector) pct default_limit hard_cap
      ++ check_sectors default_limit hard_cap rest

  -- The six checks that stand before the loop over the sectors.
  unfoldable pub check_portfolio : PortfolioState W → RiskLimits W → List (LimitBreach W)
  check_portfolio p l =
      check LimitName.max_drawdown_pct (current_drawdown_pct p) l.max_drawdown_pct
        l.max_drawdown_hard_cap_pct
      ++ (check LimitName.max_leverage (max_position_leverage p) l.max_leverage
            l.max_leverage_hard_cap
          ++ (check LimitName.max_open_positions (lit (length p.positions) 0)
                (lit l.max_open_positions 0) (lit l.max_open_positions_hard_cap 0)
              ++ (check LimitName.max_risk_per_day_pct (max (lit 0 0) (neg p.daily_pnl_pct))
                    l.max_risk_per_day_pct l.max_risk_per_day_hard_cap_pct
                  ++ (check LimitName.max_risk_per_week_pct (max (lit 0 0) (neg p.weekly_pnl_pct))
                        l.max_risk_per_week_pct l.max_risk_per_week_hard_cap_pct
                      ++ check LimitName.max_correlated_exposure_pct
                          (p.max_pairwise_correlation * lit 100 0) l.max_correlated_exposure_pct
                          l.max_correlated_exposure_hard_cap_pct))))

  unfoldable pub check_freshness : PortfolioState W → RiskLimits W → List (LimitBreach W)
  check_freshness p l =
      check LimitName.min_data_freshness_seconds p.data_freshness_seconds
        l.min_data_freshness_seconds l.min_data_freshness_hard_cap_seconds

  unfoldable pub check_limits : PortfolioState W → RiskLimits W → List (LimitBreach W)
  unfolding check_portfolio check_sectors check_freshness
  check_limits p l =
      check_portfolio p l
      ++ (check_sectors l.max_sector_exposure_pct l.max_sector_exposure_hard_cap_pct
            (sector_exposure_pct p)
          ++ check_freshness p l)

  -- `if observed > cap: breaches.append(...)`
  unfoldable pub hard_check : LimitName → W → W → List (LimitBreach W)
  hard_check name observed cap = if lt cap observed then breach name cap observed true ∷ [] else []

  unfoldable pub hard_check_sectors : W → List (String × W) → List (LimitBreach W)
  unfolding hard_check
  hard_check_sectors cap [] = []
  hard_check_sectors cap ((sector, pct) ∷ rest) =
      hard_check (LimitName.max_sector_exposure_pct sector) pct cap ++ hard_check_sectors cap rest

  -- The loop over `checks`, less its last entry.
  unfoldable pub hard_check_portfolio : PortfolioState W → RiskLimits W → List (LimitBreach W)
  hard_check_portfolio p l =
      hard_check LimitName.max_drawdown_pct (current_drawdown_pct p) l.max_drawdown_hard_cap_pct
      ++ (hard_check LimitName.max_leverage (max_position_leverage p) l.max_leverage_hard_cap
          ++ (hard_check LimitName.max_open_positions (lit (length p.positions) 0)
                (lit l.max_open_positions_hard_cap 0)
              ++ (hard_check LimitName.max_risk_per_day_pct (max (lit 0 0) (neg p.daily_pnl_pct))
                    l.max_risk_per_day_hard_cap_pct
                  ++ (hard_check LimitName.max_risk_per_week_pct
                        (max (lit 0 0) (neg p.weekly_pnl_pct)) l.max_risk_per_week_hard_cap_pct
                      ++ hard_check LimitName.max_correlated_exposure_pct
                          (p.max_pairwise_correlation * lit 100 0)
                          l.max_correlated_exposure_hard_cap_pct))))

  unfoldable pub absolute_hard_cap_breaches : PortfolioState W → RiskLimits W → List (LimitBreach W)
  unfolding hard_check_portfolio hard_check hard_check_sectors
  absolute_hard_cap_breaches p l =
      hard_check_portfolio p l
      ++ (hard_check LimitName.min_data_freshness_seconds p.data_freshness_seconds
            l.min_data_freshness_hard_cap_seconds
          ++ hard_check_sectors l.max_sector_exposure_hard_cap_pct (sector_exposure_pct p))
