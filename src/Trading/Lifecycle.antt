-- ===== src/Trading/Lifecycle.antt =====
-- `handle_event` of `TradeLifecycle` (aitos/trading/lifecycle.py) on the topics of prices, and the
-- public calls in any order. Events of other topics do nothing.
pub mod Validity
use Prim.Native.String.{String}
use text.Mathlib.Text.{◌==◌ as str_eq}
use project_alpha.Common.{
  ℕ, true, Option, none, some, List, [], ◌∷◌, if◌then◌else◌, Result, ok, err,
}
use project_alpha.Float.{Float}
use project_alpha.Risk.Models.{PortfolioState}
use project_alpha.Trading.Trade.{Opportunity, Trade}
use project_alpha.Trading.Executor.{OrderExecutor}
use project_alpha.Trading.State.{Lifecycle, LifecycleError, M, pure, gets, ◌>>=◌, ◌>>◌}
use project_alpha.Trading.Entry.{submit_opportunity}
use project_alpha.Trading.Exit.{update_price, close_trade, reconcile_trade}

pub data LifecycleCall (W : Type 0) : Type 0 where
  initialize : LifecycleCall W
  submit : Opportunity W → PortfolioState W → ℕ → LifecycleCall W
  update : ℕ → W → LifecycleCall W
  handle : Option String → Option W → LifecycleCall W
  close : ℕ → W → String → LifecycleCall W
  reconcile : ℕ → LifecycleCall W

module _ {W X : Type 0} ⦃f : Float W⦄ (ex : OrderExecutor W X) where
  -- The loop over the trades that were open when the event came.
  unfoldable pub update_matching : String → W → List (ℕ × Trade W) → M W X (Unit {0})
  update_matching symbol price [] = pure tt
  update_matching symbol price ((id, t) ∷ rest) =
      let others : M W X (Unit {0}) = update_matching symbol price rest in
      if str_eq t.symbol symbol then update_price ex t.trade_id price >> others else others

  abbrev pub update_all : Option W → String → M W X (Unit {0})
  update_all none symbol = pure tt
  update_all (some price) symbol = do
    trades ← gets (λ l. l.open_trades)
    update_matching symbol price trades

  abbrev pub handle_symbol : Option String → Option W → M W X (Unit {0})
  handle_symbol none price = pure tt
  handle_symbol (some symbol) price = if str_eq symbol "" then pure tt else update_all price symbol

  unfoldable pub handle_event : Option String → Option W → M W X (Unit {0})
  handle_event symbol price = do
    initialized ← gets (λ l. l.initialized)
    if initialized then handle_symbol symbol price else pure tt

  unfoldable pub perform : LifecycleCall W → Lifecycle W X → Lifecycle W X
  perform initialize l = record l { initialized = true }
  perform (submit o p id) l = (submit_opportunity ex o p id l).1
  perform (update id price) l = (update_price ex id price l).1
  perform (handle symbol price) l = (handle_event symbol price l).1
  perform (close id price reason) l = (close_trade ex id price reason l).1
  perform (reconcile id) l = (reconcile_trade ex id l).1

  unfoldable pub run_calls : List (LifecycleCall W) → Lifecycle W X → Lifecycle W X
  run_calls [] l = l
  run_calls (c ∷ cs) l = run_calls cs (perform c l)
