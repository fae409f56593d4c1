-- ===== src/Dashboards.antt =====
-- soc-frontend/src/pages/dashboards.
pub mod Overview
