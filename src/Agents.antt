-- ===== src/Agents.antt =====
-- app/agents: the agents' data, the tool registry and the manager of the hierarchy.
pub mod Models
pub mod Tools
pub mod Manager
mod Reads
mod Frames
pub mod History
pub mod Authority
pub mod Mediation
pub mod Termination
mod Samples
