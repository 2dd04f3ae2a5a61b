-- ===== src/Trading.antt =====
-- aitos/trading, aitos/models/trade.py and aitos/execution/order_executor.py.
pub mod Trade
pub mod Executor
pub mod State
pub mod Position
pub mod Exit
pub mod Proposal
pub mod Invariant
pub mod Keeps
pub mod Gives
pub mod Entry
pub mod Lifecycle
pub mod Reconciliation
