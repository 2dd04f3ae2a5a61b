-- ===== src/Live/Binance/Account.antt =====
-- The queries and the settings of aitos/execution/binance_executor.py.
use Prim.Native.String.{String}
use text.Mathlib.Text.{◌==◌ as str_eq}
use project_alpha.Common.{
  ℕ, Bool, false, Option, none, List, [], ◌∷◌, if◌then◌else◌, Result, ok, err,
}
use project_alpha.Float.{Float, lit}
use project_alpha.Live.Filters.{Decimals, or_else}
use project_alpha.Live.Binance.{
  ApiFailure, request_failed, ApiCall, ApiResponse, BalanceEntry, get_position_mode_call,
  set_position_mode_call, set_leverage_call, balance_call, order_status_call, cancel_call, Binance,
  BinanceError, not_connected, api_error, signed_request,
}

module _ {W X : Type 0} ⦃f : Float W⦄ (d : Decimals W)
    (exchange : ApiCall W → X → Result ApiFailure (ApiResponse W) × X) (fresh_id : X → ℕ × X) where
  unfoldable pub get_order_status :
      Binance W → String → ℕ → X → Result BinanceError (ApiResponse W) × X
  unfolding signed_request
  get_order_status b symbol id x = signed_request exchange b (order_status_call symbol id) x

  unfoldable pub cancel_order : Binance W → String → ℕ → X → Result BinanceError (ApiResponse W) × X
  unfolding signed_request
  cancel_order b symbol id x = signed_request exchange b (cancel_call symbol id) x

  abbrev pub ignored : Result BinanceError (ApiResponse W) × X → Result BinanceError (Unit {0}) × X
  ignored (ok a, x) = (ok tt, x)
  ignored (err (api_error e), x) = (ok tt, x)
  ignored (err not_connected, x) = (err not_connected, x)
  ignored (err (request_failed e), x) = (err (request_failed e), x)

  unfoldable pub cancel_resting_order :
      Binance W → String → ℕ → X → Result BinanceError (Unit {0}) × X
  unfolding cancel_order
  cancel_resting_order b symbol id x = ignored (cancel_order b symbol id x)

  abbrev pub status_or_none :
      Result BinanceError (ApiResponse W) × X → Result BinanceError (Option String) × X
  status_or_none (ok a, x) = (ok a.status, x)
  status_or_none (err (api_error e), x) = (ok none, x)
  status_or_none (err not_connected, x) = (err not_connected, x)
  status_or_none (err (request_failed e), x) = (err (request_failed e), x)

  unfoldable pub get_resting_order_status :
      Binance W → String → ℕ → X → Result BinanceError (Option String) × X
  unfolding get_order_status
  get_resting_order_status b symbol id x = status_or_none (get_order_status b symbol id x)

  abbrev pub mode_of : Result BinanceError (ApiResponse W) × X → Result BinanceError Bool × X
  mode_of (ok a, x) = (ok (or_else false a.dual_side_position), x)
  mode_of (err e, x) = (err e, x)

  unfoldable pub get_position_mode : Binance W → X → Result BinanceError Bool × X
  unfolding signed_request
  get_position_mode b x = mode_of (signed_request exchange b get_position_mode_call x)

  abbrev pub set_mode_if_ok :
      Bool
      → Binance W
      → Result BinanceError (ApiResponse W) × X
      → Result BinanceError (Unit {0}) × Binance W × X
  set_mode_if_ok hedge_mode b (ok a, x) = (ok tt, record b { hedge_mode = hedge_mode }, x)
  set_mode_if_ok hedge_mode b (err e, x) = (err e, b, x)

  unfoldable pub set_position_mode :
      Bool → Binance W → X → Result BinanceError (Unit {0}) × Binance W × X
  unfolding signed_request
  set_position_mode hedge_mode b x =
      set_mode_if_ok hedge_mode b (signed_request exchange b (set_position_mode_call hedge_mode) x)

  unfoldable pub set_leverage : Binance W → String → ℕ → X → Result BinanceError (ApiResponse W) × X
  unfolding signed_request
  set_leverage b symbol leverage x = signed_request exchange b (set_leverage_call symbol leverage) x

  abbrev pub balance_of : String → List (BalanceEntry W) → W
  balance_of asset [] = lit 0 0
  balance_of asset (e ∷ es) =
      if str_eq e.asset asset
      then or_else (or_else (lit 0 0) e.balance) e.available_balance
      else balance_of asset es

  abbrev pub balance_in :
      String → Result BinanceError (ApiResponse W) × X → Result BinanceError W × X
  balance_in asset (ok a, x) = (ok (balance_of asset a.entries), x)
  balance_in asset (err e, x) = (err e, x)

  unfoldable pub get_account_balance : Binance W → String → X → Result BinanceError W × X
  unfolding signed_request
  get_account_balance b asset x = balance_in asset (signed_request exchange b balance_call x)
