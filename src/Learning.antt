-- ===== src/Learning.antt =====
-- aitos/learning: candidates are evaluated on unseen windows before they are registered.
pub mod WalkForward
pub mod Validation
pub mod Pipeline
