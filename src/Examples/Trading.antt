-- ===== src/Examples/Trading.antt =====
-- The theorems on aitos/trading at concrete inputs.
use project_alpha.Common.{◌+◌, ◌+◌, ◌≡◌, refl, ◌⊎◌, true, none, some, [], ◌∷◌, lookup}
use project_alpha.Float.Fixed.{fixed}
use project_alpha.Trading.Trade.{long, r_distance, unrealized_r_multiple}
use project_alpha.Trading.Position.{breakeven_due, stop_hit}
use project_alpha.Trading.Invariant.{IsValid}
use project_alpha.Trading.Gives.{Gives}
use project_alpha.Trading.Exit.{trail_stop, adjust_stop, update_price}
use project_alpha.Trading.Exit.Stops.{
  IsClosedBy, IsCloser, trail_stop-improves, stop_hit-closes, breakeven_trails_to_price,
}
use project_alpha.Trading.Entry.{submit_opportunity}
use project_alpha.Trading.Entry.Gate.{IsCleared, Untouched, submit_needs_clearance}
use project_alpha.Trading.Lifecycle.{submit, update, handle, close, reconcile, run_calls}
use project_alpha.Trading.Lifecycle.Validity.{run_calls-IsValid}
use project_alpha.Trading.Reconciliation.{ReconciliationScheduler}
use project_alpha.Examples.Data.{whole, portfolio, executor, buy, position, lifecycle}

abbrev valid : IsValid lifecycle
valid = (((refl, refl), refl, tt), tt)

submit_needs_clearance_example :
    IsCleared lifecycle buy (portfolio 10_000)
    ⊎ Untouched lifecycle (submit_opportunity executor buy (portfolio 10_000) 8 lifecycle)
submit_needs_clearance_example = submit_needs_clearance executor buy (portfolio 10_000) 8 lifecycle

run_calls-IsValid_example : IsValid (
    run_calls executor
      (submit buy (portfolio 10_000) 8
        ∷ update 7 (whole 85)
        ∷ handle (some "BTCUSDT") (some (whole 130))
        ∷ close 8 (whole 130) "manual"
        ∷ reconcile 7
        ∷ [])
      lifecycle)
run_calls-IsValid_example =
    run_calls-IsValid executor
      (submit buy (portfolio 10_000) 8
        ∷ update 7 (whole 85)
        ∷ handle (some "BTCUSDT") (some (whole 130))
        ∷ close 8 (whole 130) "manual"
        ∷ reconcile 7
        ∷ [])
      lifecycle valid

stop_hit-closes_example :
    IsClosedBy 7
      (whole 85)
      "sl_triggered"
      position
      lifecycle
      (update_price executor 7 (whole 85) lifecycle)
    × (lookup 7 (update_price executor 7 (whole 85) lifecycle).1.open_trades ≡ none)
unfolding stop_hit
stop_hit-closes_example =
    stop_hit-closes executor 7 (whole 85) position lifecycle refl refl valid refl refl refl

trail_stop-improves_example :
    Gives
      (λ t'. (t'.sl_price ≡ whole 90) ⊎ IsCloser long (whole 90) t'.sl_price)
      (trail_stop executor position (whole 105))
trail_stop-improves_example = trail_stop-improves executor position (whole 105)

breakeven_trails_to_price_example :
    Gives (λ t'. t'.sl_price ≡ whole 110) (adjust_stop executor position (whole 110))
unfolding breakeven_due unrealized_r_multiple r_distance
breakeven_trails_to_price_example =
    breakeven_trails_to_price executor position (whole 110) refl refl refl refl refl refl refl

abbrev scheduler : ReconciliationScheduler
scheduler = record {
  initialized = true;
  last_run_trades_checked = 0;
  last_run_trades_closed = 0;
  total_runs = 0;
  errors = 0;
  published = [];
}
