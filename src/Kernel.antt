-- ===== src/Kernel.antt =====
-- aitos/kernel and aitos/agents: governance of production actions, the fusion of evidence into a
-- decision, and the agents that the kernel asks.
pub mod Governance
pub mod Fusion
pub mod Decisions
pub mod Memory
