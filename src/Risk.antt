-- ===== src/Risk.antt =====
-- aitos/risk: the limits, the scores, the circuit breaker and the engine that combines them.
pub mod Breaker
pub mod Sector
pub mod Models
pub mod Limits
pub mod Score
pub mod Engine
pub mod Sizing
