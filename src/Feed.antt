-- ===== src/Feed.antt =====
-- Market data: aitos/data/l2_sequence.py, aitos/exchange/orderbook.py and
-- aitos/exchange/rate_limiter.py.
pub mod Sequence
pub mod Book
pub mod Limiter
pub mod Replay
