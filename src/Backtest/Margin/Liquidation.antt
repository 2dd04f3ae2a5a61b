-- ===== src/Backtest/Margin/Liquidation.antt =====
-- When a position is liquidated, and what later calls do to it.
use project_alpha.Common.{◌≡◌, refl, arith, true, false, List, [], ◌∷◌, Result, ok, err}
use project_alpha.Float.{Float, lit, le, eq}
use project_alpha.Backtest.Margin.{
  PerpetualMarginModel, MarginError, open_or_add, apply_funding, snapshot_margin, check_liquidation,
  maintenance, equity_at,
}

-- The calls that change the model.
pub data MarginCall (W : Type 0) : Type 0 where
  opens : W → W → MarginCall W
  funds : W → W → MarginCall W
  checks : W → MarginCall W

module _ {W : Type 0} ⦃f : Float W⦄ where
  abbrev pub left_by :
      {A : Type 0}
      → PerpetualMarginModel W
      → Result MarginError (A × PerpetualMarginModel W)
      → PerpetualMarginModel W
  left_by m (ok (a, m')) = m'
  left_by m (err e) = m

  abbrev pub opened_by :
      PerpetualMarginModel W → Result MarginError (PerpetualMarginModel W) → PerpetualMarginModel W
  opened_by m (ok m') = m'
  opened_by m (err e) = m

  -- A call that raises changes nothing.
  pub margin_step : PerpetualMarginModel W → MarginCall W → PerpetualMarginModel W
  margin_step m (opens qty price) = opened_by m (open_or_add m qty price)
  margin_step m (funds rate mark) = left_by m (apply_funding m rate mark)
  margin_step m (checks mark) = left_by m (check_liquidation m mark)

  pub margin_run : PerpetualMarginModel W → List (MarginCall W) → PerpetualMarginModel W
  margin_run m [] = m
  margin_run m (c ∷ cs) = margin_run (margin_step m c) cs

  -- Liquidated, with no position.
  abbrev pub IsLiquidated : PerpetualMarginModel W → Type 0
  IsLiquidated m = (m.liquidated ≡ true) × (m.position_qty ≡ lit 0 0)

  margin_step-IsLiquidated :
      (m : PerpetualMarginModel W) (c : MarginCall W)
      → IsLiquidated m
      → IsLiquidated (margin_step m c)
  unfolding margin_step open_or_add apply_funding check_liquidation snapshot_margin
  margin_step-IsLiquidated m (opens qty price) h = ground arith
  margin_step-IsLiquidated m (funds rate mark) h = ground arith
  margin_step-IsLiquidated m (checks mark) h = ground arith

  run-IsLiquidated :
      (m : PerpetualMarginModel W) (cs : List (MarginCall W))
      → IsLiquidated m
      → IsLiquidated (margin_run m cs)
  unfolding margin_run
  run-IsLiquidated m [] h = h
  run-IsLiquidated m (c ∷ cs) h =
      run-IsLiquidated (margin_step m c) cs (margin_step-IsLiquidated m c h)

  -- A check at a positive mark price, of a position whose equity is at most its maintenance margin,
  -- liquidates it: the check answers true, and after any further calls the model is liquidated and
  -- holds no position.
  pub check_liquidation-IsLiquidated :
      (m : PerpetualMarginModel W) (mark : W) (cs : List (MarginCall W))
      → le mark (lit 0 0) ≡ false
      → eq m.position_qty (lit 0 0) ≡ false
      → le (equity_at m mark) (maintenance m mark) ≡ true
      → (m' : PerpetualMarginModel W) × (check_liquidation m mark ≡ ok (true, m'))
        × IsLiquidated (margin_run m' cs)
  unfolding check_liquidation snapshot_margin
  check_liquidation-IsLiquidated m mark cs positive held low =
      let m' : PerpetualMarginModel W = record m { liquidated = true; position_qty = lit 0 0 } in
      (m', ground arith, run-IsLiquidated m' cs (refl, refl))
