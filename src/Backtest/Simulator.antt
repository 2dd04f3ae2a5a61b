-- ===== src/Backtest/Simulator.antt =====
-- `ExecutionSimulator` of aitos/backtest/execution.py.
use project_alpha.Common.{
  Bool, true, false, not, ◌&&◌, ◌||◌, if◌then◌else◌, Result, ok, ◌>>◌, raise_if,
}
use project_alpha.Float.{Float, ◌+◌, ◌-◌, ◌*◌, ◌/◌, lit, neg, abs, lt, le, eq, min}

pub data FillSide : Type 0 where
  buy sell : FillSide

pub record Fill (W : Type 0) : Type 0 where
  pub side : FillSide
  pub quantity : W
  pub price : W
  pub fee : W

pub record PortfolioSnapshot (W : Type 0) : Type 0 where
  pub cash : W
  pub position_qty : W
  pub avg_entry : W
  pub realized_pnl : W
  pub fees : W
  pub equity : W

pub record ExecutionSimulator (W : Type 0) : Type 0 where
  pub cash : W
  pub position_qty : W
  pub avg_entry : W
  pub realized_pnl : W
  pub fees : W
  pub fee_rate : W
  pub slippage_bps : W

pub data SimulatorError : Type 0 where
  initial_cash_not_positive negative_rate : SimulatorError
  quantity_or_price_not_positive mark_price_not_positive : SimulatorError

abbrev pub is_buy : FillSide → Bool
is_buy buy = true
is_buy sell = false

abbrev differs : Bool → Bool → Bool
differs true b = not b
differs false b = b

module _ {W : Type 0} ⦃f : Float W⦄ where
  unfoldable pub new_simulator : W → W → W → Result SimulatorError (ExecutionSimulator W)
  new_simulator initial_cash fee_rate slippage_bps = do
    raise_if (le initial_cash (lit 0 0)) initial_cash_not_positive
    raise_if (lt fee_rate (lit 0 0) || lt slippage_bps (lit 0 0)) negative_rate
    ok (record {
      cash = initial_cash;
      position_qty = lit 0 0;
      avg_entry = lit 0 0;
      realized_pnl = lit 0 0;
      fees = lit 0 0;
      fee_rate = fee_rate;
      slippage_bps = slippage_bps;
    })

  abbrev pub fill_price : ExecutionSimulator W → FillSide → W → W
  fill_price x side market_price =
      let impact = x.slippage_bps / lit 10_000 0 in
      market_price * (if is_buy side then lit 1 0 + impact else lit 1 0 - impact)

  abbrev pub signed_quantity : FillSide → W → W
  signed_quantity side quantity = if is_buy side then quantity else neg quantity

  -- `old == 0`, or the order is on the side of the position.
  abbrev pub extends : W → W → Bool
  extends old signed =
      eq old (lit 0 0)
      || (lt (lit 0 0) old && lt (lit 0 0) signed)
      || (lt old (lit 0 0) && lt signed (lit 0 0))

  abbrev pub average_entry : ExecutionSimulator W → W → W → W
  average_entry x signed price =
      let new = x.position_qty + signed in
      if eq new (lit 0 0)
      then lit 0 0
      else (abs x.position_qty * x.avg_entry + abs signed * price) / abs new

  -- The branch that adds to the position or opens it.
  unfoldable pub extend_position : ExecutionSimulator W → W → W → ExecutionSimulator W
  extend_position x signed price = record x { avg_entry = average_entry x signed price }

  abbrev pub crosses_zero : W → W → Bool
  crosses_zero old new = not (eq new (lit 0 0)) && differs (lt (lit 0 0) old) (lt (lit 0 0) new)

  -- The branch that reduces, closes or turns the position.
  unfoldable pub close_position : ExecutionSimulator W → W → W → ExecutionSimulator W
  close_position x signed price =
      let old = x.position_qty in
      let closing = min (abs old) (abs signed) in
      let direction = if lt (lit 0 0) old then lit 1 0 else neg (lit 1 0) in
      record x {
        realized_pnl = x.realized_pnl + closing * (price - x.avg_entry) * direction;
        avg_entry = if crosses_zero old (old + signed) then price else x.avg_entry;
      }

  abbrev pub fill_of : ExecutionSimulator W → FillSide → W → W → Fill W
  fill_of x side quantity market_price =
      let price = fill_price x side market_price in
      record {
        side = side;
        quantity = quantity;
        price = price;
        fee = price * quantity * x.fee_rate;
      }

  abbrev pub settle : ExecutionSimulator W → Fill W → ExecutionSimulator W → ExecutionSimulator W
  settle x r x' =
      let signed = signed_quantity r.side r.quantity in
      record x' {
        cash = x.cash - (signed * r.price + r.fee);
        fees = x.fees + r.fee;
        position_qty = x.position_qty + signed;
      }

  unfoldable pub execute :
      FillSide
      → W
      → W
      → ExecutionSimulator W
      → Result SimulatorError (Fill W × ExecutionSimulator W)
  unfolding extend_position close_position
  execute side quantity market_price x = do
    raise_if (le quantity (lit 0 0) || le market_price (lit 0 0)) quantity_or_price_not_positive
    let r = fill_of x side quantity market_price
    let signed = signed_quantity side quantity
    let x' =
        if extends x.position_qty signed
        then extend_position x signed r.price
        else close_position x signed r.price
    ok (r, settle x r x')

  unfoldable pub snapshot : W → ExecutionSimulator W → Result SimulatorError (PortfolioSnapshot W)
  snapshot mark_price x =
      let unrealized = x.position_qty * (mark_price - x.avg_entry) in
      raise_if (le mark_price (lit 0 0)) mark_price_not_positive
      >> ok (record {
        cash = x.cash;
        position_qty = x.position_qty;
        avg_entry = x.avg_entry;
        realized_pnl = x.realized_pnl + unrealized;
        fees = x.fees;
        equity = x.cash + x.position_qty * mark_price;
      })
