-- ===== src/Agents/Mediation.antt =====
-- Complete mediation of tool calls in app/agents/manager.py: what `execute_tool` lets through.
pub mod Guards
pub mod Denied
pub use Guards.{Authorized, Cleared, Leased}
