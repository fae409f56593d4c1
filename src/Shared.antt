-- ===== src/Shared.antt =====
-- Parts that several pages show, soc-frontend/src/shared/ui.
pub mod TwoKeyModal
