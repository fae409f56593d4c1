-- ===== src/Layout.antt =====
-- The frame around the pages, soc-frontend/src/layouts.
pub mod CommandPalette
pub mod Sidebar
