-- ===== src/Examples/Data.antt =====
-- Inputs that the examples share.
use project_alpha.Common.{
  ℕ, suc, ◌*◌, true, false, none, some, List, [], ◌∷◌, Result, ok, err, if◌then◌else◌,
}
use project_alpha.Float.{eq}
use project_alpha.Backtest.Simulator.{FillSide, Fill, ExecutionSimulator, SimulatorError, execute}
use project_alpha.Backtest.Engine.{BacktestMetrics, BacktestResult, run_backtest}
use project_alpha.Float.Int.{ℤ, pos}
use project_alpha.Float.Fixed.{scale, fixed}
use project_alpha.Risk.Breaker.{CircuitBreaker, new_breaker}
use project_alpha.Risk.Models.{RiskLimits, PortfolioState, default_limits}
use project_alpha.Risk.Engine.{RiskEngine}
use project_alpha.Risk.Sizing.{SizingRequest}
use project_alpha.Trading.Trade.{TradeLifecycleState, Opportunity, Trade, long}
use project_alpha.Trading.Executor.{OrderExecutor, OrderResult, simulated_submit}
use project_alpha.Trading.State.{Lifecycle}

abbrev pub whole : ℕ → ℤ
whole n = pos (n * scale)

abbrev pub limits : RiskLimits ℤ
limits = default_limits

-- One position of 1,000 dollars, and a peak that fixes the drawdown.
abbrev pub portfolio : ℕ → PortfolioState ℤ
portfolio peak = record {
  equity_usd = whole 10_000;
  peak_equity_usd = whole peak;
  positions =
      record {
        symbol = "ETHUSDT";
        notional_usd = whole 1_000;
        leverage = whole 2;
        sector = "smart_contract";
      }
      ∷ [];
  daily_pnl_pct = whole 0;
  weekly_pnl_pct = whole 0;
  volatility_percentile = whole 20;
  regime = "trending";
  max_pairwise_correlation = pos 1_000;
  api_error_rate_pct = whole 0;
  api_latency_ms = whole 50;
  data_freshness_seconds = whole 1;
  model_accuracy = pos 6_000;
}

abbrev pub breaker : CircuitBreaker
breaker = new_breaker 900

abbrev pub engine : RiskEngine ℤ
engine = record {
  limits = limits;
  circuit_breaker = breaker;
  initialized = true;
  last_assessment = none;
  published = [];
}

abbrev pub request : SizingRequest ℤ
request = record {
  equity_usd = whole 10_000;
  entry_price = whole 100;
  stop_loss_price = whole 95;
  risk_limits = limits;
  risk_score = whole 0;
  win_rate = none;
  win_loss_ratio = none;
  volatility_percentile = whole 0;
  correlation_penalty = whole 0;
  requested_risk_pct = none;
  base_leverage = whole 10;
  existing_sector_notional_usd = whole 500;
  sector_limit_pct = some (whole 20);
}

abbrev pub filled : ℕ → OrderResult ℤ × ℕ
filled n = (
  record {
    order_id = suc n;
    symbol = "BTCUSDT";
    side = long;
    filled_quantity = whole 1;
    fill_price = whole 100;
    success = true;
    error = none;
  },
  suc n,
)

-- Every order is accepted, and no resting order fills; the state counts the orders.
abbrev pub executor : OrderExecutor ℤ ℕ
executor = record {
  supports_exchange_side_stops = true;
  submit_order = simulated_submit (whole 0);
  place_stop_loss_order = λ _ _ _ _. filled;
  place_take_profit_order = λ _ _ _ _. filled;
  cancel_resting_order = λ _ _ n. n;
  get_resting_order_status = λ _ _ n. (some "NEW", n);
}

abbrev pub buy : Opportunity ℤ
buy = record {
  symbol = "BTCUSDT";
  side = long;
  entry_price = whole 100;
  stop_loss_price = whole 90;
  take_profit_levels = whole 120 ∷ [];
  confidence = pos 8_000;
  strategy_id = "momentum";
  rationale = "breakout";
  is_production = true;
  approved_by = some "operator";
  trailing_sl_enabled = true;
  breakeven_at_r_multiple = some (whole 1);
  regime = "trending";
}

-- A long from 100 with its stop loss at 90.
abbrev pub position : Trade ℤ
position = record {
  trade_id = 7;
  symbol = "BTCUSDT";
  side = long;
  entry_price = whole 100;
  quantity = whole 1;
  leverage = whole 2;
  position_size_usd = whole 100;
  risk_amount_usd = whole 10;
  strategy_id = "momentum";
  explanation = "breakout";
  sl_price = whole 90;
  tp_price = whole 150;
  state = TradeLifecycleState.position_opened;
  trailing_sl_enabled = true;
  breakeven_triggered = false;
  breakeven_at_r_multiple = some (whole 1);
  take_profit_levels = whole 150 ∷ [];
  partial_exits = [];
  sl_order_id = none;
  tp_order_ids = [];
  regime = "trending";
  exit_price = none;
  exit_reason = none;
  pnl = none;
  pnl_percent = none;
}

abbrev pub lifecycle : Lifecycle ℤ ℕ
lifecycle = record {
  risk_engine = engine;
  kernel = none;
  use_exchange_side_stops = false;
  initialized = true;
  open_trades = (7, position) ∷ [];
  closed_trades = [];
  executor = 0;
  published = [];
}

-- A simulator without fees, and a strategy that buys one unit at the first event.
abbrev pub free_simulator : ExecutionSimulator ℤ
free_simulator = record {
  cash = whole 1_000;
  position_qty = whole 0;
  avg_entry = whole 0;
  realized_pnl = whole 0;
  fees = whole 0;
  fee_rate = whole 0;
  slippage_bps = whole 0;
}

abbrev pub simulator_of :
    Result SimulatorError (Fill ℤ × ExecutionSimulator ℤ)
    → Result SimulatorError (ExecutionSimulator ℤ)
simulator_of (ok (r, x)) = ok x
simulator_of (err e) = err e

unfoldable pub buy_once :
    ℕ × ℤ → ExecutionSimulator ℤ → Result SimulatorError (ExecutionSimulator ℤ)
unfolding execute
buy_once tick x =
    if eq x.position_qty (whole 0)
    then simulator_of (execute FillSide.buy (whole 1) tick.1 x)
    else ok x

abbrev pub half_day : ℕ
half_day = 43_200_000_000

-- A price that goes up twice a day.
abbrev pub ticks : List (ℕ × ℤ)
ticks =
    (0, whole 100)
    ∷ (2 * half_day, whole 101)
    ∷ (3 * half_day, whole 102)
    ∷ (4 * half_day, whole 103)
    ∷ (5 * half_day, whole 104)
    ∷ []

unfoldable pub test_run : List (ℕ × ℤ) → Result SimulatorError (BacktestResult ℤ)
unfolding run_backtest buy_once
test_run events =
    run_backtest (λ v. v) (whole 0) (λ e. e.0) buy_once (λ e. e.1) (whole 1_000) free_simulator
      events

abbrev pub metrics_with : ℤ → ℤ → BacktestMetrics ℤ
metrics_with final total_return = record {
  initial_equity = whole 1_000;
  final_equity = final;
  total_return = total_return;
  max_drawdown = whole 0;
  sharpe = whole 0;
  total_fees = whole 0;
  trades = 0;
  wins = 0;
  losses = 0;
  win_rate = whole 0;
  profit_factor = whole 0;
}

-- The result of that strategy on all the ticks, and on two of them.
abbrev pub steady_result : BacktestResult ℤ
steady_result = record {
  metrics = metrics_with (whole 1_004) (pos 40);
  equity_curve = whole 1_000 ∷ whole 1_001 ∷ whole 1_002 ∷ whole 1_003 ∷ whole 1_004 ∷ [];
  trades = [];
}

abbrev pub rising_result : BacktestResult ℤ
rising_result = record {
  metrics = metrics_with (whole 1_001) (pos 10);
  equity_curve = whole 1_000 ∷ whole 1_001 ∷ [];
  trades = [];
}
