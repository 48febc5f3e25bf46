-- ===== src/Agents/Termination.antt =====
-- What becomes of a terminated agent in app/agents/manager.py.
pub mod Status
pub mod Steps
pub mod Guarded
pub mod Final
pub mod Revival
pub use Status.{IsTerminated}
