-- ===== src/Playbooks.antt =====
-- soc-frontend/src/features/playbooks.
pub mod Sandbox
pub mod Store
