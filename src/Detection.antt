-- ===== src/Detection.antt =====
-- soc-frontend/src/pages/detection.
pub mod AlertRules
pub mod IocSearch
pub mod ThreatFeeds
