-- ===== src/Policy.antt =====
-- Governed policies and models: policy_governance.py, policy_registry.py, policy_monitor.py and
-- policy_rollback_service.py of aitos/journal, and aitos/learning/model_registry.py.
pub mod Governance
pub mod Models
pub mod Monitor
pub mod Service
