-- ===== src/Examples.antt =====
-- Runs of the model on concrete inputs, with fixed-point numbers for the floats.
pub mod Data
mod Risk
mod Feed
mod Trading
mod Backtest
mod Learning
mod Live
mod Kernel
mod Services
