-- ===== src/Trading/Exit.antt =====
-- The open position's methods of `TradeLifecycle` (aitos/trading/lifecycle.py): closing, partial
-- closing, the moves of the stop loss, and the check of the orders that rest on the exchange.
pub mod Filing
pub mod Invariant
pub mod Stops
use Prim.Native.String.{String}
use text.Mathlib.Text.{◌==◌ as str_eq}
use project_alpha.Common.{
  ℕ, Bool, true, false, ◌&&◌, Option, none, some, List, [], ◌∷◌, ◌++◌, if◌then◌else◌,
}
use project_alpha.Float.{Float, ◌*◌, lit, eq}
use project_alpha.Trading.Trade.{TradeLifecycleState, Trade}
use project_alpha.Trading.Position.{
  is_opened, tail, partial_close_fraction, closed_at, partially_closed, stop_hit, target_hit,
  breakeven_due, trailing_candidate, improves,
}
use project_alpha.Trading.Executor.{OrderExecutor, OrderResult}
use project_alpha.Trading.State.{
  M, TradeEvent, zero_division, sl_triggered, tp_triggered, position_updated, trailing_sl,
  position_closed, partial_close, pure, raise, gets, modify, publish, on_executor, store,
  require_initialized, find_open, remove_open, ◌>>=◌, ◌>>◌,
}

-- What the break-even move writes.
abbrev pub at_breakeven : {W : Type 0} → Trade W → Trade W
at_breakeven t = record t { sl_price = t.entry_price; breakeven_triggered = true }

module _ {W X : Type 0} ⦃f : Float W⦄ (ex : OrderExecutor W X) where
  cancel_order : String → ℕ → M W X (Unit {0})
  cancel_order symbol id = on_executor (λ x. (tt, ex.cancel_resting_order symbol id x))

  cancel_if : String → Option ℕ → M W X (Unit {0})
  unfolding cancel_order
  cancel_if symbol none = pure tt
  cancel_if symbol (some id) = cancel_order symbol id

  cancel_all : String → List ℕ → M W X (Unit {0})
  unfolding cancel_order
  cancel_all symbol [] = pure tt
  cancel_all symbol (id ∷ ids) = cancel_order symbol id >> cancel_all symbol ids

  -- `_cancel_resting_orders`; the trade is closed by now, and no longer in the dictionary.
  unfoldable pub cancel_resting_orders : Trade W → M W X (Trade W)
  unfolding cancel_if cancel_all
  cancel_resting_orders t = do
    cancel_if t.symbol t.sl_order_id
    cancel_all t.symbol t.tp_order_ids
    pure (record t { sl_order_id = none; tp_order_ids = [] })

  abbrev pub placed_id : OrderResult W → Option ℕ
  placed_id r = if r.success then some r.order_id else none

  unfoldable pub replace_stop_loss : Trade W → M W X (Trade W)
  unfolding cancel_if
  replace_stop_loss t = do
    cancel_if t.symbol t.sl_order_id
    r ← on_executor (ex.place_stop_loss_order t.symbol t.side t.quantity t.sl_price)
    store (record t { sl_order_id = placed_id r })

  -- `if self._use_exchange_side_stops: await self._replace_exchange_side_stop_loss(trade)`
  unfoldable pub replace_if_used : Trade W → M W X (Trade W)
  unfolding replace_stop_loss
  replace_if_used t = do
    used ← gets (λ l. l.use_exchange_side_stops)
    if used then replace_stop_loss t else pure t

  cancel_if_used : Trade W → M W X (Trade W)
  unfolding cancel_resting_orders
  cancel_if_used t = do
    used ← gets (λ l. l.use_exchange_side_stops)
    if used then cancel_resting_orders t else pure t

  -- The closed list holds the same object, so the cancelled orders are gone from it too.
  finish_close : Trade W → M W X (Trade W)
  unfolding cancel_if_used
  finish_close t = do
    t' ← cancel_if_used t
    modify (λ l. record l { closed_trades = l.closed_trades ++ t' ∷ [] })
    publish (position_closed t')
    pure t'

  unfoldable pub close_trade : ℕ → W → String → M W X (Trade W)
  unfolding closed_at finish_close
  close_trade id price reason = do
    require_initialized
    t ← find_open id
    remove_open id
    if eq t.entry_price (lit 0 0)
        then raise zero_division
        else finish_close (closed_at t price reason)

  -- `_trigger_exit` at a stop loss or a take profit.
  unfoldable pub trigger_exit : Trade W → W → Bool → M W X (Trade W)
  trigger_exit t price by_stop = do
    t' ← store (record t { state = TradeLifecycleState.exit_triggered })
    publish (if by_stop then sl_triggered t' price else tp_triggered t' price)
    close_trade t'.trade_id price (if by_stop then "sl_triggered" else "tp_triggered")

  unfoldable pub do_partial_close : Trade W → W → M W X (Trade W)
  unfolding partially_closed
  do_partial_close t price = if eq t.entry_price (lit 0 0) then raise zero_division else do
    t' ← store (partially_closed t price)
    publish (partial_close t' (t.position_size_usd * partial_close_fraction))
    pure t'

  -- The first take-profit order is taken off the list and cancelled, if there is one.
  consume_order : Trade W → List ℕ → M W X (Trade W)
  unfolding cancel_order
  consume_order t [] = pure t
  consume_order t (id ∷ ids) = do
    t' ← store (record t { tp_order_ids = ids })
    cancel_order t'.symbol id
    pure t'

  consume_target_order : Trade W → M W X (Trade W)
  unfolding consume_order
  consume_target_order t = consume_order t t.tp_order_ids

  -- A target is hit, with `rest` the targets behind it.
  take_profit : List W → Trade W → W → M W X (Trade W)
  unfolding do_partial_close trigger_exit consume_target_order
  take_profit [] t price = trigger_exit t price false
  take_profit (next ∷ rest) t price = do
    t₁ ← do_partial_close t price
    t₂ ← store (record t₁ { take_profit_levels = next ∷ rest })
    used ← gets (λ l. l.use_exchange_side_stops)
    if used then consume_target_order t₂ else pure t₂

  -- The stop loss has moved: the resting order follows, and the move is published.
  unfoldable pub stop_moved : (Trade W → TradeEvent W) → Trade W → M W X (Trade W)
  unfolding replace_if_used
  stop_moved event t = do t₁ ← store t; t₂ ← replace_if_used t₁; publish (event t₂); pure t₂

  unfoldable pub move_to_breakeven : Trade W → W → M W X (Trade W)
  unfolding stop_moved
  move_to_breakeven t price =
      if breakeven_due t price then stop_moved position_updated (at_breakeven t) else pure t

  abbrev pub trailed : Trade W → W → Trade W
  trailed t price = record t { sl_price = trailing_candidate t price }

  unfoldable pub trail_stop : Trade W → W → M W X (Trade W)
  unfolding stop_moved
  trail_stop t price =
      if t.trailing_sl_enabled && improves t (trailing_candidate t price)
      then stop_moved trailing_sl (trailed t price)
      else pure t

  unfoldable pub adjust_stop : Trade W → W → M W X (Trade W)
  unfolding move_to_breakeven trail_stop
  adjust_stop t price = do t' ← move_to_breakeven t price; trail_stop t' price

  check_target : List W → Trade W → W → M W X (Trade W)
  unfolding take_profit adjust_stop
  check_target [] t price = adjust_stop t price
  check_target (next ∷ rest) t price =
      if target_hit t next price then take_profit rest t price else adjust_stop t price

  unfoldable pub update_opened : Trade W → W → M W X (Trade W)
  unfolding check_target trigger_exit
  update_opened t price =
      if stop_hit t price
      then trigger_exit t price true
      else check_target t.take_profit_levels t price

  unfoldable pub update_price : ℕ → W → M W X (Trade W)
  unfolding update_opened
  update_price id price = do
    require_initialized
    t ← find_open id
    if is_opened t.state then update_opened t price else pure t

  abbrev pub is_filled : Option String → Bool
  is_filled none = false
  is_filled (some s) = str_eq s "FILLED"

  -- The status of an order, where there is one.
  order_filled : String → Option ℕ → M W X Bool
  order_filled symbol none = pure false
  order_filled symbol (some id) = do
    status ← on_executor (ex.get_resting_order_status symbol id)
    pure (is_filled status)

  abbrev pub first : {A : Type 0} → List A → Option A
  first [] = none
  first (x ∷ xs) = some x

  reconcile_target : List W → Trade W → M W X (Trade W)
  unfolding close_trade do_partial_close
  reconcile_target [] t = close_trade t.trade_id t.tp_price "tp_triggered_exchange"
  reconcile_target (level ∷ []) t = close_trade t.trade_id level "tp_triggered_exchange"
  reconcile_target (level ∷ next ∷ rest) t = do
    t' ← do_partial_close t level
    store (record t' { take_profit_levels = next ∷ rest; tp_order_ids = tail t'.tp_order_ids })

  -- The first take-profit order, if the stop loss has not filled.
  reconcile_targets : Trade W → M W X (Trade W)
  unfolding order_filled reconcile_target
  reconcile_targets t = do
    taken ← order_filled t.symbol (first t.tp_order_ids)
    if taken then reconcile_target t.take_profit_levels t else pure t

  reconcile_opened : Trade W → M W X (Trade W)
  unfolding order_filled reconcile_targets close_trade
  reconcile_opened t = do
    stopped ← order_filled t.symbol t.sl_order_id
    let at_stop = close_trade t.trade_id t.sl_price "sl_triggered_exchange"
    if stopped then at_stop else reconcile_targets t

  unfoldable pub reconcile_trade : ℕ → M W X (Trade W)
  unfolding reconcile_opened
  reconcile_trade id = do
    require_initialized
    t ← find_open id
    used ← gets (λ l. l.use_exchange_side_stops)
    if used && is_opened t.state then reconcile_opened t else pure t
