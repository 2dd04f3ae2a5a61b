-- ===== src/Live/Binance/Orders.antt =====
-- The orders of aitos/execution/binance_executor.py. The messages of errors leave out their numbers.
use Prim.Native.String.{String}
use project_alpha.Common.{ℕ, true, false, Option, none, some, if◌then◌else◌, Result, ok, err}
use project_alpha.Float.{Float, lit, lt, eq}
use project_alpha.Trading.Trade.{TradeSide}
use project_alpha.Trading.Executor.{OrderRequest, OrderResult}
use project_alpha.Live.Filters.{Decimals, or_else}
use project_alpha.Live.Binance.{
  ApiFailure, request_failed, ApiCall, ApiResponse, new_order, Binance, BinanceError, not_connected,
  api_error, OrderParams, signed_request, rounded, rounded_trigger, is_large_enough,
  position_params, is_accepted, is_resting,
}

module _ {W : Type 0} ⦃f : Float W⦄ where
  -- `_min_notional_failure`; the number 0 stands for the empty identifier.
  unfoldable pub min_notional_failure : String → TradeSide → OrderResult W
  min_notional_failure symbol side = record {
    order_id = 0;
    symbol = symbol;
    side = side;
    filled_quantity = lit 0 0;
    fill_price = lit 0 0;
    success = false;
    error = some "order notional is below the minimum notional — rejected locally";
  }

  unfoldable pub refused_order : ℕ → String → TradeSide → String → OrderResult W
  refused_order id symbol side e = record {
    order_id = id;
    symbol = symbol;
    side = side;
    filled_quantity = lit 0 0;
    fill_price = lit 0 0;
    success = false;
    error = some e;
  }

  -- `float(value or 0.0) or default`
  abbrev pub value_or : W → Option W → W
  value_or default value = let x = or_else (lit 0 0) value in if eq x (lit 0 0) then default else x

  unfoldable pub submitted : ℕ → OrderRequest W → W → ApiResponse W → OrderResult W
  submitted id r quantity a =
      let filled = or_else (lit 0 0) a.executed_qty in
      let status = or_else "UNKNOWN" a.status in
      record {
        order_id = or_else id a.order_id;
        symbol = r.symbol;
        side = r.side;
        filled_quantity = if lt (lit 0 0) filled then filled else quantity;
        fill_price = value_or r.reference_price a.avg_price;
        success = is_accepted status;
        error = if is_accepted status then none else some "unexpected order status";
      }

  abbrev pub opening_order : Binance W → OrderRequest W → String → W → ℕ → OrderParams W
  opening_order b r order_type quantity id = record {
    symbol = r.symbol;
    order_type = order_type;
    quantity = quantity;
    stop_price = none;
    new_client_order_id = id;
    position = position_params b r.side false;
  }

  unfoldable pub resting_order : ℕ → String → TradeSide → W → ApiResponse W → OrderResult W
  resting_order id symbol position_side trigger_price a = record {
    order_id = or_else id a.order_id;
    symbol = symbol;
    side = position_side;
    filled_quantity = lit 0 0;
    fill_price = trigger_price;
    success = is_resting a.status;
    error = none;
  }

  abbrev pub closing_order : Binance W → String → TradeSide → W → W → String → ℕ → OrderParams W
  closing_order b symbol position_side quantity trigger_price order_type id = record {
    symbol = symbol;
    order_type = order_type;
    quantity = quantity;
    stop_price = some trigger_price;
    new_client_order_id = id;
    position = position_params b position_side true;
  }

-- The answer to an order: a refusal of the exchange becomes a result; no connection, or any other
-- failure of the request, is raised.
abbrev pub answered :
    {W X : Type 0}
    → (String → OrderResult W)
    → (ApiResponse W → OrderResult W)
    → Result BinanceError (ApiResponse W) × X
    → Result BinanceError (OrderResult W) × X
answered refused accepted (ok a, x) = (ok (accepted a), x)
answered refused accepted (err (api_error e), x) = (ok (refused e), x)
answered refused accepted (err not_connected, x) = (err not_connected, x)
answered refused accepted (err (request_failed e), x) = (err (request_failed e), x)

-- `request.client_order_id or f"aitos-{uuid4}"`
abbrev pub order_id_of : {X : Type 0} → (X → ℕ × X) → Option ℕ → X → ℕ × X
order_id_of fresh_id none x = fresh_id x
order_id_of fresh_id (some id) x = (id, x)

module _ {W X : Type 0} ⦃f : Float W⦄ (d : Decimals W)
    (exchange : ApiCall W → X → Result ApiFailure (ApiResponse W) × X) (fresh_id : X → ℕ × X) where
  unfoldable pub submit_order :
      Binance W → OrderRequest W → String → Option ℕ → X → Result BinanceError (OrderResult W) × X
  unfolding signed_request min_notional_failure refused_order submitted position_params
  submit_order b r order_type client_order_id x =
      let quantity = rounded d b r.symbol r.quantity in
      let (id, x') = order_id_of fresh_id client_order_id x in
      if is_large_enough b r.symbol r.reference_price quantity
      then answered (refused_order id r.symbol r.side) (submitted id r quantity)
          (signed_request exchange b (new_order (opening_order b r order_type quantity id)) x')
      else (ok (min_notional_failure r.symbol r.side), x)

  -- `_place_reduce_only_stop`
  unfoldable pub place_reduce_only_stop :
      Binance W → String → TradeSide → W → W → String → X → Result BinanceError (OrderResult W) × X
  unfolding signed_request min_notional_failure refused_order resting_order position_params
  place_reduce_only_stop b symbol side quantity trigger_price order_type x =
      let quantity' = rounded d b symbol quantity in
      let trigger = rounded_trigger d b symbol trigger_price in
      let (id, x') = fresh_id x in
      if is_large_enough b symbol trigger quantity'
      then answered (refused_order id symbol side) (resting_order id symbol side trigger) (
          signed_request exchange b
            (new_order (closing_order b symbol side quantity' trigger order_type id)) x')
      else (ok (min_notional_failure symbol side), x)

  abbrev pub place_stop_loss_order :
      Binance W → String → TradeSide → W → W → X → Result BinanceError (OrderResult W) × X
  place_stop_loss_order b symbol side quantity stop_price x =
      place_reduce_only_stop b symbol side quantity stop_price "STOP_MARKET" x

  abbrev pub place_take_profit_order :
      Binance W → String → TradeSide → W → W → X → Result BinanceError (OrderResult W) × X
  place_take_profit_order b symbol side quantity price x =
      place_reduce_only_stop b symbol side quantity price "TAKE_PROFIT_MARKET" x
