-- ===== src/Assets.antt =====
-- The pages about assets, soc-frontend/src/pages/assets.
pub mod Inventory
pub mod Vulnerabilities
pub mod NetworkMap
