-- ===== src/Backtest/Engine/Curve.antt =====
-- The equity curve, the trades and the drawdown of a backtest.
use project_alpha.Common.{
  ℕ, Bool, ◌+◌, ◌≤◌, ◌≡◌, refl, arith, true, false, List, [], ◌∷◌, ◌++◌, length, length-append,
  select, inl, inr, Result, ok, Bool-cases, Result-cases,
}
use project_alpha.Common.Sort.{length-sort_by}
use project_alpha.Float.{
  Float, IsOrdered, lit, le, lt, eq, max, IsNumber, max_ge_left, not_lt_of_le, le_of_lt, ◌-◌, ◌/◌,
}
use project_alpha.Backtest.Replay.{replay_events}
use project_alpha.Backtest.Simulator.{ExecutionSimulator, SimulatorError, snapshot}
use project_alpha.Backtest.Engine.{
  EngineRun, BacktestResult, BacktestTrade, drawdown_from, record_trade, run_event, run_events,
  run_backtest, result_of, metrics_of,
}

module _ {W : Type 0} ⦃f : Float W⦄ where
  drawdown_from_ge :
      IsOrdered W
      → (peak dd : W) (curve : List W) → IsNumber dd
      → le dd (drawdown_from peak dd curve) ≡ true
  unfolding drawdown_from
  drawdown_from_ge o peak dd [] n = n
  drawdown_from_ge o peak dd (x ∷ xs) n =
      let peak' = max peak x in
      let fall = (peak' - x) / peak' in
      elim (Bool-cases (lt (lit 0 0) peak')) [
        | inl up ↦
            let grows = max_ge_left o dd fall n in
            let (_, n') = o.numbers_of_le dd (max dd fall) grows in
            rw up
              (o.le_trans dd (max dd fall) _ grows (drawdown_from_ge o peak' (max dd fall) xs n'))
        | inr flat ↦ rw flat (drawdown_from_ge o peak' dd xs n)
      ]

  length-select_two :
      (p q : W → Bool) (xs : List W)
      → ((x : W) → p x ≡ true → q x ≡ false)
      → length (select p xs) + length (select q xs) ≤ length xs
  length-select_two p q [] h = omega arith
  length-select_two p q (x ∷ xs) h = ground (arith, length-select_two p q xs h, h x)

  module _ {E : Type 0} (timestamp : E → ℕ)
      (strategy : E → ExecutionSimulator W → Result SimulatorError (ExecutionSimulator W))
      (mark_price : E → W) where
    -- A point of the curve for each event, and at most one trade.
    Recorded : ℕ → EngineRun W → EngineRun W → Type 0
    Recorded n r r' =
        (length r'.curve ≡ length r.curve + n)
        × (length r'.trades ≤ length r.trades + n)
        × (length r'.trade_pnls + length r.trades ≡ length r.trade_pnls + length r'.trades)

    record_trade-length :
        (e : E) (before : W) (r : EngineRun W)
        → let r' = record_trade timestamp strategy mark_price e before r in
          (length r'.trades ≤ length r.trades + 1)
          × (length r'.trade_pnls + length r.trades ≡ length r.trade_pnls + length r'.trades)
          × (r'.curve ≡ r.curve)
    unfolding record_trade
    record_trade-length e before r = elim (Bool-cases (eq r.execution.realized_pnl before)) [
      | inl same ↦ rw same (omega arith, refl, refl)
      | inr moved ↦
          let pnl = r.execution.realized_pnl - before in
          let trade : BacktestTrade W = record {
            timestamp = timestamp e;
            reward = pnl;
            price = mark_price e;
          } in
          let one = length-append r.trades (trade ∷ []) in
          let two = length-append r.trade_pnls (pnl ∷ []) in
          rw moved (omega (arith, one), omega (arith, one, two), refl)
    ]

    run_event-Recorded :
        (e : E) (r : EngineRun W) {r' : EngineRun W}
        → run_event timestamp strategy mark_price e r ≡ ok r'
        → Recorded 1 r r'
    unfolding run_event record_trade Recorded
    run_event-Recorded e r {r'} h = elim (Result-cases (strategy e r.execution)) [
      | inr (x, fails) ↦ let k = rw fails at h in absurd (ground arith)
      | inl (x, acts) ↦ elim (Result-cases (snapshot (mark_price e) x)) [
        | inr (x', fails) ↦ let k = rw (acts, fails) at h in absurd (ground arith)
        | inl (s, marked) ↦
            let k = rw (acts, marked) at h in
            let r0 =
              record_trade timestamp strategy mark_price e r.execution.realized_pnl
                (record r { execution = x }) in
            let (few, lock, _) =
              record_trade-length e r.execution.realized_pnl (record r { execution = x }) in
            let one = length-append r.curve (s.equity ∷ []) in
            let all : record r0 { curve = r.curve ++ s.equity ∷ [] } ≡ r' = cc in
            rw (← all) (omega (arith, one), few, lock)
      ]
    ]

    run_events-Recorded :
        (es : List E) (r : EngineRun W) {r' : EngineRun W}
        → run_events timestamp strategy mark_price es r ≡ ok r'
        → Recorded (length es) r r'
    unfolding run_events Recorded
    run_events-Recorded [] r {r'} h =
        let same : r ≡ r' = cc in rw (← same) (omega arith, omega arith, refl)
    run_events-Recorded (e ∷ es) r {r'} h =
        elim (Result-cases (run_event timestamp strategy mark_price e r)) [
          | inr (x, fails) ↦ let k = rw fails at h in absurd (ground arith)
          | inl (r'', first) ↦
              let k = rw first at h in
              let one = run_event-Recorded e r first in
              let rest = run_events-Recorded es r'' k in (omega arith, omega arith, omega arith)
        ]

    result_of-bounds :
        IsOrdered W
        → (sqrt : W → W) (infinity initial_cash : W) (r : EngineRun W)
        → let result = result_of sqrt infinity initial_cash r in
          (result.metrics.trades ≡ result.metrics.wins + result.metrics.losses)
          × (result.metrics.trades ≤ length r.trade_pnls)
          × (le (lit 0 0) result.metrics.max_drawdown ≡ true)
    unfolding result_of metrics_of
    result_of-bounds o sqrt infinity initial_cash r =
        let zero_number : IsNumber {W = W} (lit 0 0) = o.lit_le 0 0 (omega arith) in
        (
          refl,
          length-select_two (λ p. lt (lit 0 0) p) (λ p. lt p (lit 0 0)) r.trade_pnls
              (λ p up. not_lt_of_le o (lit 0 0) p (le_of_lt o (lit 0 0) p up)),
          drawdown_from_ge o initial_cash (lit 0 0) r.curve zero_number,
        )

    -- A backtest whose strategy and marks raise nothing: the equity curve has a point for each
    -- event; there are at most as many trades as events, and the wins and losses that the metrics
    -- count are together no more than the trades; and the greatest drawdown is at least 0.
    pub run_backtest-bounds :
        IsOrdered W
        → (sqrt : W → W) (infinity initial_cash : W) (x : ExecutionSimulator W) (events : List E)
          {result : BacktestResult W}
        → run_backtest sqrt infinity timestamp strategy mark_price initial_cash x events ≡ ok result
        → (length result.equity_curve ≡ length events)
          × (length result.trades ≤ length events)
          × (result.metrics.wins + result.metrics.losses ≤ length result.trades)
          × (le (lit 0 0) result.metrics.max_drawdown ≡ true)
    unfolding run_backtest Recorded replay_events result_of
    run_backtest-bounds o sqrt infinity initial_cash x events {result} e =
        let es = replay_events timestamp events in
        let r0 : EngineRun W = record { execution = x; trade_pnls = []; trades = []; curve = [] } in
        elim (Result-cases (run_events timestamp strategy mark_price es r0)) [
          | inr (x', fails) ↦ let k = rw fails at e in absurd (ground arith)
          | inl (r, done) ↦
              let k = rw done at e in
              let all : result_of sqrt infinity initial_cash r ≡ result = cc in
              let (points, few, lock) = run_events-Recorded es r0 done in
              let (sum_of, won, fall) = result_of-bounds o sqrt infinity initial_cash r in
              let same = length-sort_by timestamp events in
              rw (← all) (omega arith, omega arith, omega arith, fall)
        ]
