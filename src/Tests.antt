-- ===== src/Tests.antt =====
-- Runs of the model at concrete inputs, one for each theorem with hypotheses or arguments.
mod Hooks
mod Auth
mod Investigations
mod Dashboard
mod Playbooks
mod Detection
mod Endpoints
mod Assets
mod Layout
mod Incidents
mod NetworkMap
mod Graph
mod Chat
mod Feeds
mod Settings
