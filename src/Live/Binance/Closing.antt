-- ===== src/Live/Binance/Closing.antt =====
-- The stop and take-profit orders that reach the exchange.
use Prim.Native.String.{String}
use project_alpha.Common.{
  ℕ, ◌≡◌, refl, arith, Bool, true, false, none, some, List, ◌∷◌, ◌⊎◌, inl, inr, Result, Bool-cases,
  Result-cases,
}
use project_alpha.Float.{Float}
use project_alpha.Trading.Trade.{TradeSide, long, short}
use project_alpha.Trading.Executor.{OrderResult}
use project_alpha.Live.Filters.{Decimals}
use project_alpha.Live.Binance.{
  ApiFailure, refuses, fails, buy, sell, ApiCall, ApiResponse, new_order, Binance, PositionParams,
  OrderParams, signed_request, position_params, is_large_enough, rounded, rounded_trigger,
}
use project_alpha.Live.Binance.Orders.{place_reduce_only_stop, closing_order, answered}

-- What the exchange documents of an order that can only reduce a position: on an account with one
-- position a symbol it is on the other side and marked `reduceOnly`; on one with two it is on the
-- other side of the position that it names.
unfoldable pub ReducesOnly : Bool → TradeSide → PositionParams → Type 0
ReducesOnly hedge_mode long p =
    (p.side ≡ sell)
    × (((hedge_mode ≡ false) × (p.position_side ≡ none) × (p.reduce_only ≡ true))
        ⊎ ((hedge_mode ≡ true) × (p.position_side ≡ some long) × (p.reduce_only ≡ false)))
ReducesOnly hedge_mode short p =
    (p.side ≡ buy)
    × (((hedge_mode ≡ false) × (p.position_side ≡ none) × (p.reduce_only ≡ true))
        ⊎ ((hedge_mode ≡ true) × (p.position_side ≡ some short) × (p.reduce_only ≡ false)))

closing-ReducesOnly :
    {W : Type 0} (b : Binance W) (side : TradeSide)
    → ReducesOnly b.hedge_mode side (position_params b side true)
unfolding ReducesOnly position_params
closing-ReducesOnly b long = elim (Bool-cases b.hedge_mode) [
  | inl hedged ↦ ground arith
  | inr one_way ↦ ground arith
]
closing-ReducesOnly b short = elim (Bool-cases b.hedge_mode) [
  | inl hedged ↦ ground arith
  | inr one_way ↦ ground arith
]

-- An exchange that notes each call that reaches it, whatever it answers.
abbrev pub logged :
    {W : Type 0}
    → (ApiCall W → List (ApiCall W) → Result ApiFailure (ApiResponse W))
    → ApiCall W
    → List (ApiCall W)
    → Result ApiFailure (ApiResponse W) × List (ApiCall W)
logged answer call log = (answer call log, call ∷ log)

module _ {W : Type 0} ⦃f : Float W⦄ (d : Decimals W)
    (answer : ApiCall W → List (ApiCall W) → Result ApiFailure (ApiResponse W))
    (draw : List (ApiCall W) → ℕ) where
  answered-log :
      (refused : String → OrderResult W) (accepted : ApiResponse W → OrderResult W) (b : Binance W)
      (call : ApiCall W) (log : List (ApiCall W))
      → b.connected ≡ true
      → (answered refused accepted (signed_request (logged answer) b call log)).1 ≡ call ∷ log
  unfolding signed_request
  answered-log refused accepted b call log up = elim (Result-cases (answer call log)) [
    | inl (a, e) ↦ rw (up, e) refl
    | inr (refuses x, e) ↦ rw (up, e) refl
    | inr (fails x, e) ↦ rw (up, e) refl
  ]

  -- A stop or take-profit order of a connected executor: either nothing reaches the exchange, or
  -- exactly one order does, which can only reduce the position in the executor's mode, asks for
  -- the quantity and the trigger price rounded by the symbol's filters, and is worth at least the
  -- minimum notional.
  pub place_reduce_only_stop-ReducesOnly :
      (b : Binance W) (symbol : String) (side : TradeSide) (quantity trigger_price : W)
      (order_type : String) (log : List (ApiCall W))
      → b.connected ≡ true
      → let out =
          place_reduce_only_stop d
            (logged answer)
            (λ l. (draw l, l))
            b
            symbol
            side
            quantity
            trigger_price
            order_type
            log in
        (out.1 ≡ log)
        ⊎ ((o : OrderParams W) × (out.1 ≡ new_order o ∷ log)
            × ReducesOnly b.hedge_mode side o.position
            × (o.quantity ≡ rounded d b symbol quantity)
            × (o.stop_price ≡ some (rounded_trigger d b symbol trigger_price))
            × (is_large_enough b symbol (rounded_trigger d b symbol trigger_price) o.quantity
                ≡ true))
  unfolding place_reduce_only_stop
  place_reduce_only_stop-ReducesOnly b symbol side quantity trigger_price order_type log up =
      let q = rounded d b symbol quantity in
      let trigger = rounded_trigger d b symbol trigger_price in
      elim (Bool-cases (is_large_enough b symbol trigger q)) [
        | inr small ↦ inl (rw small refl)
        | inl large ↦
            let o = closing_order b symbol side q trigger order_type (draw log) in
            inr (
              o,
              rw large (answered-log _ _ b (new_order o) log up),
              closing-ReducesOnly b side,
              refl,
              refl,
              large,
            )
      ]
