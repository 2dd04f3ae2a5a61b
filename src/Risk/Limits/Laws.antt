-- ===== src/Risk/Limits/Laws.antt =====
-- How the two scans of the limits compare, and what an empty result means.
use mathlib.Core.List.{Perm, perm_append_comm}
use mathlib.Core.List.Perm
use Prim.Native.String.{String}
use project_alpha.Common.{
  ◌≡◌, refl, ◌↔◌, true, false, List, [], ◌∷◌, ◌++◌, arith, length, select, All, all-All,
  append-nil_iff, ◌≤◌, not,
}
use project_alpha.Float.{Float, IsOrdered, ◌*◌, lit, neg, lt, le, max, le_of_not_lt, lt_of_le_of_lt}
use project_alpha.Risk.Models.{
  RiskLimits, PortfolioState, LimitName, LimitBreach, current_drawdown_pct, max_position_leverage,
  sector_exposure_pct, positive_fields, capped_pairs, within_cap, fields_in_range,
  defaults_within_hard_caps,
}
use project_alpha.Risk.Limits.{
  check, check_sectors, check_limits, hard_check, hard_check_sectors, hard_check_portfolio,
  absolute_hard_cap_breaches,
}

module _ {W : Type 0} ⦃f : Float W⦄ where
  abbrev pub hard_only : List (LimitBreach W) → List (LimitBreach W)
  hard_only = select λ b. b.is_hard_cap

  hard_only-append :
      (xs ys : List (LimitBreach W)) → hard_only (xs ++ ys) ≡ hard_only xs ++ hard_only ys
  hard_only-append [] ys = refl
  hard_only-append (x ∷ xs) ys = ground (arith, hard_only-append xs ys)

  hard_only-check :
      (name : LimitName) (observed default_limit cap : W)
      → hard_only (check name observed default_limit cap) ≡ hard_check name observed cap
  unfolding check hard_check
  hard_only-check name observed default_limit cap = ground arith

  hard_only-check_sectors :
      (default_limit cap : W) (xs : List (String × W))
      → hard_only (check_sectors default_limit cap xs) ≡ hard_check_sectors cap xs
  unfolding check_sectors hard_check_sectors
  hard_only-check_sectors default_limit cap [] = refl
  hard_only-check_sectors default_limit cap ((sector, pct) ∷ xs) =
      simp (hard_only-append, hard_only-check, hard_only-check_sectors default_limit cap xs)

  -- The hard-cap breaches that `check_limits` reports are, up to their order, those that
  -- `_absolute_hard_cap_breaches` reports, with the same names, caps and observed values.
  pub hard_only-check_limits :
      (p : PortfolioState W) (l : RiskLimits W)
      → Perm (hard_only (check_limits p l)) (absolute_hard_cap_breaches p l)
  unfolding check_limits absolute_hard_cap_breaches
  hard_only-check_limits p l =
      simp (hard_only-append, hard_only-check, hard_only-check_sectors)
        (Perm.append_left (hard_check_portfolio p l) (
          perm_append_comm
            (hard_check_sectors l.max_sector_exposure_hard_cap_pct (sector_exposure_pct p))
            (hard_check LimitName.min_data_freshness_seconds p.data_freshness_seconds
              l.min_data_freshness_hard_cap_seconds)))

  -- No observed value exceeds its default limit.
  abbrev pub WithinDefaults : PortfolioState W → RiskLimits W → Type 0
  WithinDefaults p l =
      ((lt l.max_drawdown_pct (current_drawdown_pct p) ≡ false)
        × ((lt l.max_leverage (max_position_leverage p) ≡ false)
            × ((lt {W = W} (lit l.max_open_positions 0) (lit (length p.positions) 0) ≡ false)
                × ((lt l.max_risk_per_day_pct (max (lit 0 0) (neg p.daily_pnl_pct)) ≡ false)
                    × ((lt l.max_risk_per_week_pct (max (lit 0 0) (neg p.weekly_pnl_pct)) ≡ false)
                        × (lt l.max_correlated_exposure_pct (p.max_pairwise_correlation * lit 100 0)
                            ≡ false))))))
      × (All (λ e. lt l.max_sector_exposure_pct e.1 ≡ false) (sector_exposure_pct p)
          × (lt l.min_data_freshness_seconds p.data_freshness_seconds ≡ false))

  -- Each default limit is at most its hard cap.
  pub record CapsOrdered (l : RiskLimits W) : Type 0 where
    pub drawdown : le l.max_drawdown_pct l.max_drawdown_hard_cap_pct ≡ true
    pub leverage : le l.max_leverage l.max_leverage_hard_cap ≡ true
    pub positions : l.max_open_positions ≤ l.max_open_positions_hard_cap
    pub day : le l.max_risk_per_day_pct l.max_risk_per_day_hard_cap_pct ≡ true
    pub week : le l.max_risk_per_week_pct l.max_risk_per_week_hard_cap_pct ≡ true
    pub correlated : le l.max_correlated_exposure_pct l.max_correlated_exposure_hard_cap_pct ≡ true
    pub sector : le l.max_sector_exposure_pct l.max_sector_exposure_hard_cap_pct ≡ true
    pub freshness : le l.min_data_freshness_seconds l.min_data_freshness_hard_cap_seconds ≡ true

  module _ (o : IsOrdered W) where
    check-nil :
        (name : LimitName) (observed d cap : W)
        → le d cap ≡ true
        → (check name observed d cap ≡ []) ↔ (lt d observed ≡ false)
    unfolding check
    check-nil name observed d cap h = (
      λ e. ground (arith, lt_of_le_of_lt o d cap observed h),
      λ e. ground (arith, lt_of_le_of_lt o d cap observed h),
    )

    check_sectors-nil :
        (d cap : W) (xs : List (String × W))
        → le d cap ≡ true
        → (check_sectors d cap xs ≡ []) ↔ All (λ e. lt d e.1 ≡ false) xs
    unfolding check_sectors
    check_sectors-nil d cap [] h = (λ _. tt, λ _. refl)
    check_sectors-nil d cap ((sector, pct) ∷ xs) h =
        append-nil_iff _ _ (check-nil (LimitName.max_sector_exposure_pct sector) pct d cap h)
          (check_sectors-nil d cap xs h)

    le_of_not_gt :
        (d cap : W)
        → lt (lit 0 0) d ≡ true
        → lt (lit 0 0) cap ≡ true
        → not (lt cap d) ≡ true
        → le d cap ≡ true
    le_of_not_gt d cap hd hc h =
        le_of_not_lt o cap d (o.numbers_of_lt _ _ hc).1 (o.numbers_of_lt _ _ hd).1 (ground arith)

    leverage_le :
        (d cap : W)
        → le (lit 1 0) d ≡ true
        → le (lit 1 0) cap ≡ true
        → not (lt cap d) ≡ true
        → le d cap ≡ true
    leverage_le d cap hd hc h =
        le_of_not_lt o cap d (o.numbers_of_le _ _ hc).1 (o.numbers_of_le _ _ hd).1 (ground arith)

    -- What the validators of `RiskLimits` accept has each default limit at most its hard cap.
    accepted-CapsOrdered :
        (l : RiskLimits W)
        → All (λ x. lt (lit 0 0) x ≡ true) (positive_fields l)
        → (le (lit 1 0) l.max_leverage ≡ true) × (le (lit 1 0) l.max_leverage_hard_cap ≡ true)
        → All (λ e. within_cap e ≡ true) (capped_pairs l)
        → l.max_open_positions ≤ l.max_open_positions_hard_cap
        → CapsOrdered l
    unfolding positive_fields capped_pairs
    accepted-CapsOrdered l p m q n = record {
      drawdown = search le_of_not_gt;
      leverage = search leverage_le;
      positions = n;
      day = search le_of_not_gt;
      week = search le_of_not_gt;
      correlated = search le_of_not_gt;
      sector = search le_of_not_gt;
      freshness = search le_of_not_gt;
    }

    validated-CapsOrdered :
        (l : RiskLimits W)
        → fields_in_range l ≡ true
        → defaults_within_hard_caps l ≡ true
        → CapsOrdered l
    unfolding fields_in_range defaults_within_hard_caps
    validated-CapsOrdered l h k =
        accepted-CapsOrdered l (all-All _ (positive_fields l) (ground arith))
          (ground arith, ground arith) (all-All _ (capped_pairs l) (ground arith)) (ground arith)

    -- For limits that the validators accept, `check_limits` reports nothing exactly when no
    -- observed value exceeds its default limit.
    pub check_limits-nil :
        (p : PortfolioState W) (l : RiskLimits W)
        → fields_in_range l ≡ true
        → defaults_within_hard_caps l ≡ true
        → (check_limits p l ≡ []) ↔ WithinDefaults p l
    unfolding check_limits
    check_limits-nil p l h k =
        let c = validated-CapsOrdered l h k in
        append-nil_iff _ _
          (append-nil_iff _ _ (check-nil _ _ _ _ c.drawdown) (
            append-nil_iff _ _ (check-nil _ _ _ _ c.leverage) (
              append-nil_iff _ _ (check-nil _ _ _ _ (o.lit_le _ _ c.positions)) (
                append-nil_iff _ _ (check-nil _ _ _ _ c.day) (
                  append-nil_iff _ _ (check-nil _ _ _ _ c.week)
                    (check-nil _ _ _ _ c.correlated))))))
          (append-nil_iff _ _ (check_sectors-nil _ _ _ c.sector) (check-nil _ _ _ _ c.freshness))
