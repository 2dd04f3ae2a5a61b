-- ===== src/Backtest.antt =====
-- The simulated market and the drivers that run it: aitos/backtest.
pub mod Queue
pub mod Margin
pub mod Streaming
pub mod Replay
pub mod Simulator
pub mod Engine
