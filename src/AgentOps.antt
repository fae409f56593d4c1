-- ===== src/AgentOps.antt =====
-- soc-frontend/src/features/agent-ops: the panels about the agents on the overview page.
pub mod TriageFeed
pub mod Resilience
