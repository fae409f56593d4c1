-- ===== src/Endpoints.antt =====
-- The pages about endpoints, soc-frontend/src/pages/endpoints.
pub mod Isolation
pub mod Fleet
pub mod Hosts
pub mod Edr
