-- ===== src/Trading/Reconciliation.antt =====
-- `ReconciliationScheduler` of aitos/trading/reconciliation.py: one pass over the open trades. The
-- task that repeats it and the time of the last run are left out.
pub mod Passes
use project_alpha.Common.{
  ℕ, suc, Bool, true, false, Option, none, some, List, [], ◌∷◌, ◌++◌, length, if◌then◌else◌, Result,
  ok, err,
}
use project_alpha.Float.{Float}
use project_alpha.Trading.Trade.{TradeLifecycleState, Trade}
use project_alpha.Trading.Executor.{OrderExecutor}
use project_alpha.Trading.State.{Lifecycle, LifecycleError}
use project_alpha.Trading.Exit.{reconcile_trade}

pub record ReconciliationScheduler : Type 0 where
  pub initialized : Bool
  pub last_run_trades_checked : ℕ
  pub last_run_trades_closed : ℕ
  pub total_runs : ℕ
  pub errors : ℕ
  -- The runs that were published: trades checked, trades closed.
  pub published : List (ℕ × ℕ)

abbrev pub is_position_closed : TradeLifecycleState → Bool
is_position_closed TradeLifecycleState.position_closed = true
is_position_closed _ = false

-- The loop's `closed_count`, and `self._errors`.
pub record Tally : Type 0 where
  pub closed_count : ℕ
  pub errors : ℕ

abbrev pub count : {W : Type 0} → Result LifecycleError (Trade W) → Tally → Tally
count (ok t) c =
    if is_position_closed t.state then record c { closed_count = suc c.closed_count } else c
count (err e) c = record c { errors = suc c.errors }

module _ {W X : Type 0} ⦃f : Float W⦄ (ex : OrderExecutor W X) where
  reconcile_each : List (ℕ × Trade W) → Tally → Lifecycle W X → Tally × Lifecycle W X
  reconcile_each [] c l = (c, l)
  reconcile_each ((id, t) ∷ rest) c l =
      let (r, l') = reconcile_trade ex t.trade_id l in reconcile_each rest (count r c) l'

  -- What `run_once` returns, if it does not raise, and what it leaves.
  unfoldable pub run_once :
      ReconciliationScheduler → Lifecycle W X → Option ℕ × ReconciliationScheduler × Lifecycle W X
  unfolding reconcile_each
  run_once s l =
      if s.initialized
      then (let (c, l') =
            reconcile_each l.open_trades (record { closed_count = 0; errors = s.errors }) l in
          let checked : ℕ = length l.open_trades in
          (
            some c.closed_count,
            record s {
              last_run_trades_checked = checked;
              last_run_trades_closed = c.closed_count;
              total_runs = suc s.total_runs;
              errors = c.errors;
              published = s.published ++ (checked, c.closed_count) ∷ [];
            },
            l',
          ))
      else (none, s, l)
