-- ===== src/Incidents.antt =====
-- The pages about incidents, soc-frontend/src/pages/incidents.
pub mod Active
pub mod Closed
pub mod WarRoom
