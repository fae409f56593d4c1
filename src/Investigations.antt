-- ===== src/Investigations.antt =====
-- soc-frontend/src/features/investigations, with the types of soc-frontend/src/types/index.ts that
-- it uses.
pub mod Types
pub mod Context
pub mod CommandCenter
pub mod Dashboard
pub mod Graph
pub mod Chat
