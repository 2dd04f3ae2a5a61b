-- ===== src/Lib.antt =====
-- The trading core of ProjectAlpha (package aitos): the risk engine that may refuse or stop trading,
-- the position sizing, the approval rule of the kernel, and the lifecycle that takes an opportunity
-- through these gates to an order and the open position to its close. Beside it stand the checks
-- on market data, the governance of policies and models, the simulated market of backtests with
-- the evaluation of candidates, the kernel's decisions, and the executor of live orders.
--
-- The lifecycle asks the risk engine for its veto and for the breaches of limits, the kernel for
-- approval and the sizing for a notional, and only then calls the order executor. Prices that come
-- in move stops, take profits and close; the reconciliation pass does the same for the fills that
-- happened on the exchange. Each part raises when it is used before its initialization.
--
-- Files:
--   Common        shared names: tests on numbers, results that may be errors, lists, dictionaries
--   Float         Python's floats as operations on an abstract type, the IEEE 754 laws of their
--                 comparisons, and fixed-point numbers (Float/Fixed) on which the examples run
--   Risk/Breaker  aitos/risk/circuit_breaker.py; histories of calls in Risk/Breaker/Safety
--   Risk/Sector   aitos/risk/sector.py
--   Risk/Models   aitos/risk/models.py: limits with their validators, portfolio, exposures
--   Risk/Limits   check_limits and _absolute_hard_cap_breaches of aitos/risk/risk_engine.py
--   Risk/Score    the four scores and _action_for_score of aitos/risk/risk_engine.py
--   Risk/Engine   the class RiskEngine of aitos/risk/risk_engine.py
--   Risk/Sizing   aitos/risk/position_sizing.py
--   Kernel/Governance   enforce_governance and require_approval_or_raise of
--                 aitos/kernel/ai_kernel.py
--   Kernel/Decisions, Kernel/Fusion, Kernel/Memory   the rest of aitos/kernel/ai_kernel.py,
--                 aitos/kernel/decision_fusion.py and the memory of aitos/agents/base_agent.py
--   Trading/Trade, Trading/Executor   aitos/models/trade.py, aitos/execution/order_executor.py
--   Trading/State                     the state of TradeLifecycle and the monad of its methods
--   Trading/Position, Trading/Exit    update_price, close_trade, reconcile_trade and what they call
--   Trading/Proposal, Trading/Entry   submit_opportunity and what it calls
--   Trading/Lifecycle                 handle_event, and the public calls in any order
--   Trading/Reconciliation            run_once of aitos/trading/reconciliation.py
--   Feed/Sequence, Feed/Book          aitos/data/l2_sequence.py, aitos/exchange/orderbook.py
--   Policy/Governance                 aitos/journal/policy_governance.py and policy_registry.py
--   Feed/Limiter                      aitos/exchange/rate_limiter.py
--   Feed/Replay                       aitos/data/orderbook_replay.py; Feed/Replay/Refines has the
--                                     quotes that a book implements
--   Policy/Service                    aitos/journal/policy_rollback_service.py
--   Policy/Models, Policy/Monitor     aitos/learning/model_registry.py and
--                                     aitos/journal/policy_monitor.py
--   Backtest/Queue, Backtest/Margin   aitos/backtest/queue_lifecycle.py and margin.py
--   Backtest/Simulator, Backtest/Replay, Backtest/Engine   aitos/backtest/execution.py, replay.py
--                                     and engine.py
--   Backtest/Streaming                aitos/backtest/streaming.py: chunk windows, the chunks of a
--                                     file, checkpoints and resume
--   Learning      aitos/learning: walk_forward.py, validation.py, evolution.py and pipeline.py
--   Live/Filters, Live/Binance        aitos/exchange/symbol_filters.py and
--                                     aitos/execution/binance_executor.py
--   Services/Retry                    aitos/resilience.py
--   Trading/Exit/Filing               what the reconciliation of a trade adds to the closed trades
--   Trading/Invariant, Trading/Keeps, Trading/Gives   the invariant of the books, and the rules by
--                                     which a method is shown to keep it, and to return
--   Examples      runs and theorems at concrete inputs
--
-- State is explicit: a method of the lifecycle takes its state and answers with a value or an
-- error and the state that it leaves, which is kept when it raises. A trade is a shared object in
-- the source; here it is written back to the dictionary of open trades at each change. The event
-- bus is the list of what was published. Clock readings and made-up identifiers are arguments.
-- Loops are recursions over lists and numbers, but for the two loops over time windows, which run
-- on fuel: for chunks, more fuel than the plan has ticks is enough; for walk-forward tests it is
-- enough when the fuel times the length of a test reaches past the holdout's start. The order
-- executor and the exchange are parameters, of which the exchange may fail; so are a strategy, an
-- agent's opinion and the reading of a JSON line. Not modelled: floating-point rounding, asyncio
-- scheduling, logging, health checks, and the packages that read and write databases, sockets
-- and files.
pub mod Common
pub mod Float
pub mod Risk
pub mod Kernel
pub mod Trading
pub mod Feed
pub mod Policy
pub mod Backtest
pub mod Learning
pub mod Live
pub mod Services
pub mod Examples
