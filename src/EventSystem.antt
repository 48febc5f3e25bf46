-- ===== src/EventSystem.antt =====
-- app/event_system: the registry of actions that events set off.
pub mod Actions
mod Samples
