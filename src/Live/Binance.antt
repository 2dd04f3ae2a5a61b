-- ===== src/Live/Binance.antt =====
-- `BinanceFuturesOrderExecutor` of aitos/execution/binance_executor.py. A signed request is one of
-- the calls that the executor makes: the exchange, which is a parameter with a state of its own,
-- answers it, refuses it with an API error, or fails: a network error, a body that is no JSON, or
-- a number that is read of it and that `float` refuses. The signature, the clock and HTTP belong to it. An
-- order's identifier is a number; a fresh one is drawn by a parameter, which is `uuid4`.
pub mod Orders
pub mod Account
pub mod Closing
pub mod Opening
use Prim.Native.String.{String}
use text.Mathlib.Text.{◌==◌ as str_eq}
use project_alpha.Common.{
  ℕ, suc, Bool, true, false, not, ◌||◌, Option, none, some, List, [], ◌∷◌, if◌then◌else◌, Result,
  ok, err,
}
use project_alpha.Float.{Float, lit, lt, eq}
use project_alpha.Trading.Trade.{TradeSide, long, short}
use project_alpha.Trading.Executor.{OrderRequest, OrderResult}
use project_alpha.Live.Filters.{
  Decimals, SymbolFilters, FilterMap, filters_of, update_filters, round_quantity, round_price,
  meets_min_notional, or_else,
}

pub data OrderSide : Type 0 where
  buy sell : OrderSide

-- `side`, `positionSide` and whether `reduceOnly` is sent.
pub record PositionParams : Type 0 where
  pub side : OrderSide
  pub position_side : Option TradeSide
  pub reduce_only : Bool

pub record OrderParams (W : Type 0) : Type 0 where
  pub symbol : String
  pub order_type : String
  pub quantity : W
  pub stop_price : Option W
  pub new_client_order_id : ℕ
  pub position : PositionParams

pub data ApiCall (W : Type 0) : Type 0 where
  get_position_mode_call : ApiCall W
  set_position_mode_call : Bool → ApiCall W
  set_leverage_call : String → ℕ → ApiCall W
  balance_call : ApiCall W
  new_order : OrderParams W → ApiCall W
  order_status_call : String → ℕ → ApiCall W
  cancel_call : String → ℕ → ApiCall W

-- An entry of the balance response: `asset`, `availableBalance`, `balance`.
pub record BalanceEntry (W : Type 0) : Type 0 where
  pub asset : String
  pub available_balance : Option W
  pub balance : Option W

-- The fields of a response that the executor reads.
pub record ApiResponse (W : Type 0) : Type 0 where
  pub order_id : Option ℕ
  pub status : Option String
  pub executed_qty : Option W
  pub avg_price : Option W
  pub dual_side_position : Option Bool
  pub entries : List (BalanceEntry W)

pub data BinanceError : Type 0 where
  not_connected : BinanceError
  api_error : String → BinanceError
  -- Any other exception of a request.
  request_failed : String → BinanceError

-- How a request can go wrong.
pub data ApiFailure : Type 0 where
  refuses fails : String → ApiFailure

pub record Binance (W : Type 0) : Type 0 where
  pub connected : Bool
  pub symbol_filters : FilterMap W
  pub hedge_mode : Bool

pub data ConstructorError : Type 0 where
  no_credentials : ConstructorError

-- The constructor, which is told whether the key and the secret are given.
unfoldable pub new_binance :
    {W : Type 0} → Bool → Bool → FilterMap W → Bool → Result ConstructorError (Binance W)
new_binance key_given secret_given filters hedge_mode =
    if not key_given || not secret_given
    then err no_credentials
    else ok (record { connected = false; symbol_filters = filters; hedge_mode = hedge_mode })

unfoldable pub connect : {W : Type 0} → Binance W → Binance W
connect b = record b { connected = true }

unfoldable pub load_symbol_filters : {W : Type 0} → FilterMap W → Binance W → Binance W
load_symbol_filters filters b = record b {
  symbol_filters = update_filters filters b.symbol_filters;
}

abbrev pub opening_side : TradeSide → OrderSide
opening_side long = buy
opening_side short = sell

abbrev pub closing_side : TradeSide → OrderSide
closing_side long = sell
closing_side short = buy

unfoldable pub position_params : {W : Type 0} → Binance W → TradeSide → Bool → PositionParams
position_params b position_side is_closing_order =
    let side =
      if is_closing_order then closing_side position_side else opening_side position_side in
    if b.hedge_mode
    then record { side = side; position_side = some position_side; reduce_only = false }
    else record { side = side; position_side = none; reduce_only = is_closing_order }

-- `status in ("FILLED", "PARTIALLY_FILLED", "NEW")`
abbrev pub is_accepted : String → Bool
is_accepted s = str_eq s "FILLED" || str_eq s "PARTIALLY_FILLED" || str_eq s "NEW"

-- `status in ("NEW", "FILLED")`, of a status that may be missing.
abbrev pub is_resting : Option String → Bool
is_resting none = false
is_resting (some s) = str_eq s "NEW" || str_eq s "FILLED"

-- `if filters is None`, or what the filters say.
abbrev pub with_filters_or : {A B : Type 0} → B → (A → B) → Option A → B
with_filters_or d g none = d
with_filters_or d g (some a) = g a

abbrev pub tag_error :
    {W : Type 0} → Result ApiFailure (ApiResponse W) → Result BinanceError (ApiResponse W)
tag_error (ok a) = ok a
tag_error (err (refuses e)) = err (api_error e)
tag_error (err (fails e)) = err (request_failed e)

-- `_signed_request`
unfoldable pub signed_request :
    {W X : Type 0}
    → (ApiCall W → X → Result ApiFailure (ApiResponse W) × X)
    → Binance W
    → ApiCall W
    → X
    → Result BinanceError (ApiResponse W) × X
signed_request exchange b call x =
    let (answer, x') = exchange call x in
    if b.connected then (tag_error answer, x') else (err not_connected, x)

module _ {W : Type 0} ⦃f : Float W⦄ where
  abbrev pub is_large_enough : Binance W → String → W → W → Bool
  is_large_enough b symbol price quantity =
      with_filters_or true (λ s. meets_min_notional s price quantity)
        (filters_of symbol b.symbol_filters)

  module _ (d : Decimals W) where
    abbrev pub rounded : Binance W → String → W → W
    rounded b symbol quantity =
        with_filters_or quantity (λ s. round_quantity d s quantity)
          (filters_of symbol b.symbol_filters)

    abbrev pub rounded_trigger : Binance W → String → W → W
    rounded_trigger b symbol price =
        with_filters_or price (λ s. round_price d s price) (filters_of symbol b.symbol_filters)
