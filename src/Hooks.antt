-- ===== src/Hooks.antt =====
-- The hooks that the pages share: soc-frontend/src/shared/hooks.
pub mod AsyncState
pub mod Polling
pub mod Stream
pub mod LogStream
