-- ===== src/Trading/Reconciliation/Passes.antt =====
-- What a reconciliation pass does to the books and to the counters.
use project_alpha.Float.{Float}
use project_alpha.Trading.Trade.{Trade}
use project_alpha.Trading.State.{Lifecycle}
