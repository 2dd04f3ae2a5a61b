-- ===== src/Services.antt =====
-- Calls of services: the retries of aitos/resilience.py.
pub mod Retry
