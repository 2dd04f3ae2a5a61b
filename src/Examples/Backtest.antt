-- ===== src/Examples/Backtest.antt =====
-- The theorems on backtests at concrete inputs.
use project_alpha.Common.{
  ℕ, ◌+◌, ◌*◌, ◌≡◌, refl, ◌≤◌, Bool, true, false, none, some, List, [], ◌∷◌, ◌++◌, map, select,
  length, arith, ◌==◌,
}
use project_alpha.Float.Int.{ℤ, pos}
use project_alpha.Float.{lit, le, max, sum}
use project_alpha.Float.Fixed.{fixed, fixed-IsOrdered}
use project_alpha.Backtest.Streaming.{
  Window, ChunkPlanner, BacktestChunk, new_planner, windows, iter_chunks, run_streaming,
}
use project_alpha.Backtest.Streaming.Tiling.{Tiles, windows-Tiles}
use project_alpha.Backtest.Streaming.Resume.{IsIndexed, all_events, resume-run_streaming}
use project_alpha.Backtest.Streaming.Chunks.{IsSortedFrom, is_covered, iter_chunks-events}
use project_alpha.Backtest.Simulator.{ExecutionSimulator, execute, snapshot}
use project_alpha.Common.Sort.{sort_by}
use project_alpha.Backtest.Replay.{replay_events}
use project_alpha.Backtest.Engine.{run_backtest, metrics_of}
use project_alpha.Backtest.Engine.Curve.{run_backtest-bounds}
use project_alpha.Examples.Data.{whole, free_simulator, ticks, buy_once, steady_result}

abbrev plan : ChunkPlanner
plan = record { start = 10; end_at = 35; chunk_size = 10 }

abbrev plan_windows : List Window
plan_windows =
    record { start = 10; end_at = 20 }
    ∷ record { start = 20; end_at = 30 }
    ∷ record { start = 30; end_at = 35 }
    ∷ []

windows-Tiles_example : (ws : List Window) × (windows 26 plan ≡ some ws) × Tiles plan 10 ws
unfolding new_planner
windows-Tiles_example = windows-Tiles 10 35 10 26 plan refl (omega arith)

-- A line is its timestamp, and 0 is a blank one.
abbrev blank : ℕ → Bool
blank l = l == 0

abbrev lines : List ℕ
lines = 5 ∷ 10 ∷ 0 ∷ 19 ∷ 31 ∷ 31 ∷ 40 ∷ []

iter_chunks-events_example :
    all_events (iter_chunks blank (λ l. l) (λ l. l) plan_windows lines)
    ≡ map (λ l. l) (select (is_covered blank (λ l. l) 10 35) lines)
unfolding Tiles IsSortedFrom
iter_chunks-events_example =
    iter_chunks-events blank (λ l. l) (λ l. l) plan plan_windows lines (omega arith)
      (
        refl,
        omega arith,
        omega arith,
        (refl, omega arith, omega arith, (refl, omega arith, omega arith, refl)),
      )
      (omega arith, (omega arith, (omega arith, (omega arith, (omega arith, (omega arith, tt))))))

abbrev chunk : ℕ → List ℕ → BacktestChunk ℕ
chunk index events = record { index = index; start = 0; end_at = 0; events = events }

resume-run_streaming_example :
    (run_streaming
      (λ e s. 2 * s + e)
      true
      true
      (chunk 0 (1 ∷ 2 ∷ []) ∷ (chunk 1 (3 ∷ []) ∷ []) ++ chunk 2 (5 ∷ []) ∷ [])
      77
      (run_streaming
        (λ e s. 2 * s + e)
        true
        false
        (chunk 0 (1 ∷ 2 ∷ []) ∷ chunk 1 (3 ∷ []) ∷ [])
        0
        none).saved).state
    ≡ (run_streaming
        (λ e s. 2 * s + e)
        true
        false
        (chunk 0 (1 ∷ 2 ∷ []) ∷ (chunk 1 (3 ∷ []) ∷ []) ++ chunk 2 (5 ∷ []) ∷ [])
        0
        none).state
unfolding IsIndexed
resume-run_streaming_example =
    resume-run_streaming (λ e s. 2 * s + e) (chunk 0 (1 ∷ 2 ∷ [])) (chunk 1 (3 ∷ []) ∷ [])
      (chunk 2 (5 ∷ []) ∷ []) 0 77 (refl, (refl, (refl, tt)))

abbrev simulator : ExecutionSimulator ℤ
simulator = record {
  cash = whole 1_000;
  position_qty = whole 0;
  avg_entry = whole 0;
  realized_pnl = whole 0;
  fees = whole 0;
  fee_rate = pos 4;
  slippage_bps = whole 0;
}

run_backtest-bounds_example :
    (length steady_result.equity_curve ≡ length ticks)
    × (length steady_result.trades ≤ length ticks)
    × (steady_result.metrics.wins + steady_result.metrics.losses ≤ length steady_result.trades)
    × (le (lit 0 0) steady_result.metrics.max_drawdown ≡ true)
unfolding run_backtest buy_once replay_events sort_by execute snapshot metrics_of max sum
run_backtest-bounds_example =
    run_backtest-bounds (λ e. e.0) buy_once (λ e. e.1) fixed-IsOrdered (λ v. v) (whole 0)
      (whole 1_000) free_simulator ticks {result = steady_result} refl
