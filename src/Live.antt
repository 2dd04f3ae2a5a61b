-- ===== src/Live.antt =====
-- Live trading: the exchange's symbol filters, aitos/exchange/symbol_filters.py, and the executor
-- of real orders, aitos/execution/binance_executor.py.
pub mod Filters
pub mod Binance
