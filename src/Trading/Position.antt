-- ===== src/Trading/Position.antt =====
-- What the open position's methods of `TradeLifecycle` (aitos/trading/lifecycle.py) compute from a
-- trade and a price, before they write it anywhere.
use Prim.Native.String.{String}
use project_alpha.Common.{
  Bool, true, false, not, ◌&&◌, Option, none, some, List, [], ◌∷◌, ◌++◌, if◌then◌else◌,
}
use project_alpha.Float.{Float, ◌+◌, ◌-◌, ◌*◌, ◌/◌, lit, round, lt, le}
use project_alpha.Trading.Trade.{
  long, short, TradeLifecycleState, Trade, directed, r_distance, unrealized_r_multiple,
}

abbrev pub is_opened : TradeLifecycleState → Bool
is_opened TradeLifecycleState.position_opened = true
is_opened _ = false

abbrev pub is_nil : {A : Type 0} → List A → Bool
is_nil [] = true
is_nil (x ∷ xs) = false

-- `l.pop(0)` leaves this.
abbrev pub tail : {A : Type 0} → List A → List A
tail [] = []
tail (x ∷ xs) = xs

module _ {W : Type 0} ⦃f : Float W⦄ where
  -- `DEFAULT_PARTIAL_CLOSE_FRACTION`
  abbrev pub partial_close_fraction : W
  partial_close_fraction = lit 5 1

  -- `x or 0.0`
  abbrev pub or_zero : Option W → W
  or_zero none = lit 0 0
  or_zero (some x) = x

  -- `((price - entry) / entry) * direction`
  unfoldable pub pnl_fraction : Trade W → W → W
  pnl_fraction t price = directed t.side ((price - t.entry_price) / t.entry_price)

  -- The fields that `close_trade` writes.
  unfoldable pub closed_at : Trade W → W → String → Trade W
  unfolding pnl_fraction
  closed_at t price reason =
      let realized = t.position_size_usd * pnl_fraction t price in
      record t {
        pnl = some (
            if is_nil t.partial_exits
            then round 4 realized
            else round 4 (or_zero t.pnl + realized));
        pnl_percent = some (round 4 (pnl_fraction t price * lit 100 0));
        exit_price = some price;
        exit_reason = some reason;
        state = TradeLifecycleState.position_closed;
      }

  -- The fields that `_partial_close` writes.
  unfoldable pub partially_closed : Trade W → W → Trade W
  unfolding pnl_fraction
  partially_closed t price =
      let closed_notional = t.position_size_usd * partial_close_fraction in
      record t {
        partial_exits =
            t.partial_exits
            ++ record {
              price = price;
              size_usd = round 2 closed_notional;
              r_multiple = round 4 (unrealized_r_multiple t price);
            }
              ∷ [];
        position_size_usd = round 2 (t.position_size_usd - closed_notional);
        pnl = some (round 4 (or_zero t.pnl + closed_notional * pnl_fraction t price));
      }

  unfoldable pub stop_hit : Trade W → W → Bool
  stop_hit t price = elim t.side [ long ↦ le price t.sl_price | short ↦ le t.sl_price price ]

  unfoldable pub target_hit : Trade W → W → W → Bool
  target_hit t target price = elim t.side [ long ↦ le target price | short ↦ le price target ]

  -- Whether the stop loss moves to the entry price.
  unfoldable pub breakeven_due : Trade W → W → Bool
  breakeven_due t price = elim t.breakeven_at_r_multiple [
    | none ↦ false
    | some r ↦ not t.breakeven_triggered && le r (unrealized_r_multiple t price)
  ]

  unfoldable pub trailing_candidate : Trade W → W → W
  trailing_candidate t price = elim t.side [
    | long ↦ price - r_distance t
    | short ↦ price + r_distance t
  ]

  unfoldable pub improves : Trade W → W → Bool
  improves t candidate = elim t.side [
    | long ↦ lt t.sl_price candidate
    | short ↦ lt candidate t.sl_price
  ]
