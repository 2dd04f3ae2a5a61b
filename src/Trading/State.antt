-- ===== src/Trading/State.antt =====
-- The state of `TradeLifecycle` (aitos/trading/lifecycle.py), and its methods' monad: a call keeps
-- what it has written when it raises. The event bus is the list of what was published.
use Prim.Native.String.{String}
use project_alpha.Common.{
  ℕ, Bool, Option, none, some, List, [], ◌∷◌, ◌++◌, if◌then◌else◌, Dict, lookup, insert, erase,
  Result, ok, err,
}
use project_alpha.Risk.Engine.{RiskEngine, VetoReason}
use project_alpha.Risk.Models.{LimitBreach}
use project_alpha.Risk.Sizing.{SizingError}
use project_alpha.Kernel.Governance.{AiKernel}
use project_alpha.Trading.Trade.{Trade, TradeSide}

-- Why an opportunity is rejected.
pub data RejectReason (W : Type 0) : Type 0 where
  risk_veto : VetoReason W → RejectReason W
  hard_limit_breach : LimitBreach W → RejectReason W
  governance_denied : String → RejectReason W
  sector_cap_exhausted : String → RejectReason W
  projected_hard_limit_breach : LimitBreach W → RejectReason W
  order_submission_failed : Option String → RejectReason W

-- The topics, with the trade that the payload shows.
pub data TradeEvent (W : Type 0) : Type 0 where
  opportunity : String → TradeSide → W → TradeEvent W
  trade_rejected : Trade W → RejectReason W → TradeEvent W
  entry_signal : String → TradeSide → TradeEvent W
  order_submitted : String → TradeSide → W → TradeEvent W
  order_filled : ℕ → W → TradeEvent W
  position_opened position_updated trailing_sl position_closed : Trade W → TradeEvent W
  exchange_stops_placed : Trade W → TradeEvent W
  sl_triggered tp_triggered : Trade W → W → TradeEvent W
  partial_close : Trade W → W → TradeEvent W

pub data LifecycleError : Type 0 where
  module_not_initialized trade_not_found zero_division : LifecycleError
  sizing_refused : SizingError → LifecycleError

pub record Lifecycle (W X : Type 0) : Type 0 where
  pub risk_engine : RiskEngine W
  pub kernel : Option AiKernel
  pub use_exchange_side_stops : Bool
  pub initialized : Bool
  pub open_trades : Dict (Trade W)
  pub closed_trades : List (Trade W)
  pub executor : X
  pub published : List (TradeEvent W)

abbrev pub M : Type 0 → Type 0 → Type 0 → Type 0
M W X A = Lifecycle W X → Result LifecycleError A × Lifecycle W X

module _ {W X : Type 0} where
  module _ {A : Type 0} where
    abbrev pub pure : A → M W X A
    pure a l = (ok a, l)

    abbrev pub raise : LifecycleError → M W X A
    raise e l = (err e, l)

    abbrev pub gets : (Lifecycle W X → A) → M W X A
    gets g l = (ok (g l), l)

    abbrev pub or_raise : Option A → LifecycleError → M W X A
    or_raise none e = raise e
    or_raise (some a) e = pure a

    abbrev pub lift : Result LifecycleError A → M W X A
    lift r l = (r, l)

  abbrev pub then_do :
      {A B : Type 0}
      → (A → M W X B)
      → Result LifecycleError A × Lifecycle W X
      → Result LifecycleError B × Lifecycle W X
  then_do k (ok a, l) = k a l
  then_do k (err e, l) = (err e, l)

  infixl 5 ◌>>=◌ ◌>>◌
  unfoldable pub ◌>>=◌ : {A B : Type 0} → M W X A → (A → M W X B) → M W X B
  ◌>>=◌ m k l = then_do k (m l)

  abbrev pub ◌>>◌ : {A B : Type 0} → M W X A → M W X B → M W X B
  m >> k = m >>= λ _. k

  abbrev pub modify : (Lifecycle W X → Lifecycle W X) → M W X (Unit {0})
  modify g l = (ok tt, g l)

  -- `await self._event_bus.publish(...)`
  abbrev pub publish : TradeEvent W → M W X (Unit {0})
  publish e = modify (λ l. record l { published = l.published ++ e ∷ [] })

  -- A call of the executor.
  abbrev pub on_executor : {A : Type 0} → (X → A × X) → M W X A
  on_executor g l = let (a, x) = g l.executor in (ok a, record l { executor = x })

  -- A trade is an object that the dictionary holds: what is written to it is written there.
  abbrev pub store : Trade W → M W X (Trade W)
  store t l = (ok t, record l { open_trades = insert t.trade_id t l.open_trades })

  abbrev pub require_initialized : M W X (Unit {0})
  require_initialized l = (if l.initialized then ok tt else err module_not_initialized, l)

  -- `self._open_trades.get(trade_id)`, which must be there.
  abbrev pub find_open : ℕ → M W X (Trade W)
  find_open id = do or_raise (← gets (λ l. lookup id l.open_trades)) trade_not_found

  abbrev pub remove_open : ℕ → M W X (Unit {0})
  remove_open id = modify (λ l. record l { open_trades = erase id l.open_trades })
