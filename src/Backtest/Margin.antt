-- ===== src/Backtest/Margin.antt =====
-- `PerpetualMarginModel` of aitos/backtest/margin.py.
pub mod Liquidation
use project_alpha.Common.{
  Bool, true, false, not, ◌&&◌, ◌||◌, Option, none, some, if◌then◌else◌, Result, ok, err, raise_if,
  ◌>>=◌, ◌>>◌,
}
use project_alpha.Float.{Float, ◌+◌, ◌-◌, ◌*◌, ◌/◌, lit, neg, abs, lt, le, eq, min, max}

pub record MarginSnapshot (W : Type 0) : Type 0 where
  pub wallet_balance : W
  pub position_qty : W
  pub entry_price : W
  pub mark_price : W
  pub leverage : W
  pub initial_margin : W
  pub maintenance_margin : W
  pub unrealized_pnl : W
  pub funding_paid : W
  pub equity : W
  pub liquidation_price : Option W
  pub liquidated : Bool

pub record PerpetualMarginModel (W : Type 0) : Type 0 where
  pub wallet_balance : W
  pub leverage : W
  pub maintenance_rate : W
  pub position_qty : W
  pub entry_price : W
  pub funding_paid : W
  pub liquidated : Bool

pub data MarginError : Type 0 where
  invalid_configuration invalid_position_update mark_price_not_positive : MarginError
  division_by_zero : MarginError

-- Whether the two are equal.
abbrev pub same_sign : Bool → Bool → Bool
same_sign true b = b
same_sign false b = not b

module _ {W : Type 0} ⦃f : Float W⦄ where
  unfoldable pub new_margin_model : W → W → W → Result MarginError (PerpetualMarginModel W)
  new_margin_model wallet leverage rate = do
    raise_if (le wallet (lit 0 0) || le leverage (lit 0 0) || lt rate (lit 0 0))
        invalid_configuration
    ok (record {
      wallet_balance = wallet;
      leverage = leverage;
      maintenance_rate = rate;
      position_qty = lit 0 0;
      entry_price = lit 0 0;
      funding_paid = lit 0 0;
      liquidated = false;
    })

  -- `1 if qty > 0 else -1`
  abbrev pub direction_of : W → W
  direction_of qty = if lt (lit 0 0) qty then lit 1 0 else neg (lit 1 0)

  -- Whether the update adds to the position, or opens it.
  abbrev pub adds : W → W → Bool
  adds old qty =
      eq old (lit 0 0)
      || lt (lit 0 0) old && lt (lit 0 0) qty
      || lt old (lit 0 0) && lt qty (lit 0 0)

  abbrev pub averaged : PerpetualMarginModel W → W → W → PerpetualMarginModel W
  averaged m qty price =
      let new = m.position_qty + qty in
      record m {
        entry_price = (abs m.position_qty * m.entry_price + abs qty * price) / abs new;
        position_qty = new;
      }

  -- The update closes all or a part of the position, and may turn it.
  abbrev pub reduced : PerpetualMarginModel W → W → W → PerpetualMarginModel W
  reduced m qty price =
      let old = m.position_qty in
      let new = old + qty in
      let close = min (abs old) (abs qty) in
      record m {
        wallet_balance = m.wallet_balance + close * (price - m.entry_price) * direction_of old;
        entry_price =
            if eq new (lit 0 0)
            then lit 0 0
            else if same_sign (lt (lit 0 0) old) (lt (lit 0 0) new)
            then m.entry_price
            else price;
        position_qty = new;
      }

  unfoldable pub open_or_add :
      PerpetualMarginModel W → W → W → Result MarginError (PerpetualMarginModel W)
  open_or_add m qty price = do
    raise_if (m.liquidated || eq qty (lit 0 0) || le price (lit 0 0)) invalid_position_update
    raise_if (adds m.position_qty qty && eq (abs (m.position_qty + qty)) (lit 0 0)) division_by_zero
    ok (if adds m.position_qty qty then averaged m qty price else reduced m qty price)

  unfoldable pub apply_funding :
      PerpetualMarginModel W → W → W → Result MarginError (W × PerpetualMarginModel W)
  apply_funding m rate mark = do
    raise_if (le mark (lit 0 0)) mark_price_not_positive
    let payment = m.position_qty * mark * rate
    ok (
      payment,
      record m {
        wallet_balance = m.wallet_balance - payment;
        funding_paid = m.funding_paid + payment;
      },
    )

  abbrev pub maintenance : PerpetualMarginModel W → W → W
  maintenance m mark = abs m.position_qty * mark * m.maintenance_rate

  abbrev pub equity_at : PerpetualMarginModel W → W → W
  equity_at m mark = m.wallet_balance + m.position_qty * (mark - m.entry_price)

  unfoldable pub liquidation_price : PerpetualMarginModel W → W → Option W
  liquidation_price m mark =
      let buffer = max (lit 0 0) (m.wallet_balance - maintenance m mark) / abs m.position_qty in
      if eq m.position_qty (lit 0 0)
      then none
      else some (m.entry_price - direction_of m.position_qty * buffer)

  unfoldable pub snapshot_margin :
      PerpetualMarginModel W → W → Result MarginError (MarginSnapshot W)
  snapshot_margin m mark = do
    raise_if (le mark (lit 0 0)) mark_price_not_positive
    ok (record {
      wallet_balance = m.wallet_balance;
      position_qty = m.position_qty;
      entry_price = m.entry_price;
      mark_price = mark;
      leverage = m.leverage;
      initial_margin =
          if eq m.position_qty (lit 0 0)
          then lit 0 0
          else abs m.position_qty * m.entry_price / m.leverage;
      maintenance_margin = maintenance m mark;
      unrealized_pnl = m.position_qty * (mark - m.entry_price);
      funding_paid = m.funding_paid;
      equity = equity_at m mark;
      liquidation_price = liquidation_price m mark;
      liquidated = not (eq m.position_qty (lit 0 0)) && le (equity_at m mark) (maintenance m mark);
    })

  abbrev pub liquidate_if : PerpetualMarginModel W → Bool → PerpetualMarginModel W
  liquidate_if m b = if b then record m { liquidated = true; position_qty = lit 0 0 } else m

  unfoldable pub check_liquidation :
      PerpetualMarginModel W → W → Result MarginError (Bool × PerpetualMarginModel W)
  check_liquidation m mark = do
    snap ← snapshot_margin m mark
    let m' = liquidate_if m snap.liquidated
    ok (m'.liquidated, m')
