-- ===== src/Backtest/Engine.antt =====
-- `BacktestEngine` of aitos/backtest/engine.py. The strategy acts on the simulator and may raise;
-- the square root and the infinity are the `math` library's and parameters. The `fields` of an
-- event, which a trade copies, are left out.
pub mod Curve
use Prim.Native.Nat.{◌+◌ as count_sum}
use project_alpha.Common.{
  ℕ, zero, suc, Bool, true, false, not, List, [], ◌∷◌, ◌++◌, length, select, map, ltb,
  if◌then◌else◌, Result, ok, err, ◌>>=◌,
}
use project_alpha.Float.{Float, ◌+◌, ◌-◌, ◌*◌, ◌/◌, lit, neg, round, lt, le, eq, max, sum}
use project_alpha.Backtest.Replay.{replay_events}
use project_alpha.Backtest.Simulator.{ExecutionSimulator, SimulatorError, snapshot}

pub record BacktestMetrics (W : Type 0) : Type 0 where
  pub initial_equity : W
  pub final_equity : W
  pub total_return : W
  pub max_drawdown : W
  pub sharpe : W
  pub total_fees : W
  pub trades : ℕ
  pub wins : ℕ
  pub losses : ℕ
  pub win_rate : W
  pub profit_factor : W

pub record BacktestTrade (W : Type 0) : Type 0 where
  pub timestamp : ℕ
  pub reward : W
  pub price : W

pub record BacktestResult (W : Type 0) : Type 0 where
  pub metrics : BacktestMetrics W
  pub equity_curve : List W
  pub trades : List (BacktestTrade W)

-- What a run works on: the simulator, and the lists that it fills.
pub record EngineRun (W : Type 0) : Type 0 where
  pub execution : ExecutionSimulator W
  pub trade_pnls : List W
  pub trades : List (BacktestTrade W)
  pub curve : List W

module _ {W : Type 0} ⦃f : Float W⦄ where
  abbrev pub last_or : W → List W → W
  last_or d [] = d
  last_or d (x ∷ xs) = last_or x xs

  -- The loop over the curve that follows the peak and the deepest fall from it.
  pub drawdown_from : W → W → List W → W
  drawdown_from peak max_dd [] = max_dd
  drawdown_from peak max_dd (equity ∷ curve) =
      let peak' = max peak equity in
      let dd = if lt (lit 0 0) peak' then max max_dd ((peak' - equity) / peak') else max_dd in
      drawdown_from peak' dd curve

  -- `[(curve[i] / curve[i-1]) - 1.0 for i in range(1, len(curve)) if curve[i-1] > 0]`
  abbrev pub returns_of : List W → List W
  returns_of [] = []
  returns_of (x ∷ []) = []
  returns_of (x ∷ y ∷ ys) =
      let later = returns_of (y ∷ ys) in if lt (lit 0 0) x then (y / x - lit 1 0) ∷ later else later

  module _ {E : Type 0} (timestamp : E → ℕ)
      (strategy : E → ExecutionSimulator W → Result SimulatorError (ExecutionSimulator W))
      (mark_price : E → W) where
    -- What is recorded when the strategy has changed the realized profit.
    unfoldable pub record_trade : E → W → EngineRun W → EngineRun W
    record_trade event before r =
        let after = r.execution.realized_pnl in
        let pnl = after - before in
        let trade : BacktestTrade W = record {
          timestamp = timestamp event;
          reward = pnl;
          price = mark_price event;
        } in
        if eq after before
        then r
        else record r { trade_pnls = r.trade_pnls ++ pnl ∷ []; trades = r.trades ++ trade ∷ [] }

    unfoldable pub run_event : E → EngineRun W → Result SimulatorError (EngineRun W)
    unfolding record_trade
    run_event event r = do
      x ← strategy event r.execution
      let r' = record_trade event r.execution.realized_pnl (record r { execution = x })
      s ← snapshot (mark_price event) x
      ok (record r' { curve = r.curve ++ s.equity ∷ [] })

    pub run_events : List E → EngineRun W → Result SimulatorError (EngineRun W)
    unfolding run_event
    run_events [] r = ok r
    run_events (e ∷ es) r = run_event e r >>= λ r'. run_events es r'

  module _ (sqrt : W → W) (infinity : W) where
    unfoldable pub sharpe_of : List W → W
    sharpe_of returns =
        let n = length returns in
        let mean = sum returns / lit n 0 in
        let squares = map (λ r. (r - mean) * (r - mean)) returns in
        let variance = sum squares / (lit n 0 - lit 1 0) in
        if ltb 1 n
        then (if lt (lit 0 0) variance then sqrt (lit n 0) * mean / sqrt variance else lit 0 0)
        else lit 0 0

    unfoldable pub profit_factor_of : W → W → W
    profit_factor_of gross_profit gross_loss =
        if lt (lit 0 0) gross_loss
        then gross_profit / gross_loss
        else if lt (lit 0 0) gross_profit
        then infinity
        else lit 0 0

    unfoldable pub metrics_of : W → EngineRun W → BacktestMetrics W
    unfolding drawdown_from sharpe_of profit_factor_of
    metrics_of initial_cash r =
        let final = last_or initial_cash r.curve in
        let won = select (λ p. lt (lit 0 0) p) r.trade_pnls in
        let lost = select (λ p. lt p (lit 0 0)) r.trade_pnls in
        let wins = length won in
        let losses = length lost in
        let trades = count_sum wins losses in
        record {
          initial_equity = initial_cash;
          final_equity = final;
          total_return = round 12 (final / initial_cash - lit 1 0);
          max_drawdown = drawdown_from initial_cash (lit 0 0) r.curve;
          sharpe = sharpe_of (returns_of r.curve);
          total_fees = r.execution.fees;
          trades = trades;
          wins = wins;
          losses = losses;
          win_rate = if ltb 0 trades then lit wins 0 / lit trades 0 else lit 0 0;
          profit_factor = profit_factor_of (sum won) (neg (sum lost));
        }

    unfoldable pub result_of : W → EngineRun W → BacktestResult W
    result_of initial_cash r = record {
      metrics = metrics_of initial_cash r;
      equity_curve = r.curve;
      trades = r.trades;
    }

    module _ {E : Type 0} (timestamp : E → ℕ)
        (strategy : E → ExecutionSimulator W → Result SimulatorError (ExecutionSimulator W))
        (mark_price : E → W) where
      -- `run`, on the engine's simulator.
      unfoldable pub run_backtest :
          W → ExecutionSimulator W → List E → Result SimulatorError (BacktestResult W)
      unfolding run_events result_of
      run_backtest initial_cash execution events = do
        r ←
            run_events timestamp strategy mark_price (replay_events timestamp events)
              (record { execution = execution; trade_pnls = []; trades = []; curve = [] })
        ok (result_of initial_cash r)
