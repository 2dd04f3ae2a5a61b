-- ===== src/Examples/Live.antt =====
-- The theorems on live orders at concrete inputs.
use Prim.Native.String.{String}
use project_alpha.Common.{
  ◌⊎◌, err, ℕ, ◌+◌, ◌*◌, ◌≡◌, refl, ◌≤◌, ◌<◌, arith, ◌↔◌, ◌⊎◌, true, none, some, List, [], ◌∷◌, ok,
  Result,
}
use project_alpha.Float.Int.{ℤ, pos}
use project_alpha.Float.Fixed.{fixed}
use project_alpha.Trading.Trade.{long, short}
use project_alpha.Trading.Executor.{OrderRequest, OrderResult}
use project_alpha.Live.Filters.{Decimals, SymbolFilters, round_to_step}
use project_alpha.Live.Filters.Steps.{round_to_step-greatest}
use project_alpha.Live.Binance.{
  ApiFailure, request_failed, ApiCall, ApiResponse, new_order, Binance, OrderParams,
  is_large_enough, rounded, rounded_trigger,
}
use project_alpha.Live.Binance.Orders.{submit_order, opening_order, place_reduce_only_stop}
use project_alpha.Live.Binance.Closing.{ReducesOnly, logged, place_reduce_only_stop-ReducesOnly}
use project_alpha.Live.Binance.Opening.{TakesOrder, submit_order_ends, FailsWith}
use project_alpha.Examples.Data.{whole}

abbrev exact : Decimals ℤ
exact = record { to_units = λ x. x; of_units = λ x. x }

round_to_step-greatest_example :
    (m : ℕ) × (round_to_step exact (pos 12_345) (pos 100) ≡ pos (m * 100))
    × (m * 100 ≤ 12_345)
    × (12_345 < m * 100 + 100)
round_to_step-greatest_example =
    round_to_step-greatest exact (pos 12_345) (pos 100) 12_345 100 refl refl refl (omega arith)

abbrev filters : SymbolFilters ℤ
filters = record {
  symbol = "BTCUSDT";
  step_size = pos 100;
  tick_size = whole 1;
  min_notional = whole 5;
  quantity_precision = 2;
  price_precision = 0;
}

abbrev hedged : Binance ℤ
hedged = record { connected = true; symbol_filters = ("BTCUSDT", filters) ∷ []; hedge_mode = true }

abbrev new_response : ApiResponse ℤ
new_response = record {
  order_id = some 7;
  status = some "NEW";
  executed_qty = none;
  avg_price = none;
  dual_side_position = none;
  entries = [];
}

abbrev accept : ApiCall ℤ → List (ApiCall ℤ) → Result ApiFailure (ApiResponse ℤ)
accept call log = ok new_response

place_reduce_only_stop-ReducesOnly_example :
    let out =
      place_reduce_only_stop exact
        (logged accept)
        (λ l. (1, l))
        hedged
        "BTCUSDT"
        short
        (pos 12_345)
        (pos 905_000)
        "STOP_MARKET"
        [] in
    (out.1 ≡ [])
    ⊎ ((o : OrderParams ℤ) × (out.1 ≡ new_order o ∷ [])
        × ReducesOnly true short o.position
        × (o.quantity ≡ rounded exact hedged "BTCUSDT" (pos 12_345))
        × (o.stop_price ≡ some (rounded_trigger exact hedged "BTCUSDT" (pos 905_000)))
        × (is_large_enough hedged "BTCUSDT"
              (rounded_trigger exact hedged "BTCUSDT" (pos 905_000))
              o.quantity
            ≡ true))
place_reduce_only_stop-ReducesOnly_example =
    place_reduce_only_stop-ReducesOnly exact accept (λ l. 1) hedged "BTCUSDT" short (pos 12_345)
      (pos 905_000) "STOP_MARKET" [] refl

abbrev market_order : OrderRequest ℤ
market_order = record {
  symbol = "BTCUSDT";
  side = long;
  quantity = pos 12_345;
  reference_price = whole 90;
}

submit_order_ends_example :
    let q = rounded exact hedged "BTCUSDT" (pos 12_345) in
    let call = new_order (opening_order hedged market_order "MARKET" q 3) in
    let out =
      submit_order exact (logged accept) (λ l. (1, l)) hedged market_order "MARKET" (some 3) [] in
    ((result : OrderResult ℤ) × (out.0 ≡ ok result)
      × ((result.success ≡ true) ↔ (
          (is_large_enough hedged "BTCUSDT" (whole 90) q ≡ true)
          × TakesOrder exact (logged accept) (λ l. (1, l)) call [])))
    ⊎ ((e : String) × (out.0 ≡ err (request_failed e))
        × (is_large_enough hedged "BTCUSDT" (whole 90) q ≡ true)
        × FailsWith exact (logged accept) (λ l. (1, l)) e call [])
submit_order_ends_example =
    submit_order_ends exact (logged accept) (λ l. (1, l)) hedged market_order "MARKET" (some 3) []
      refl
