-- ===== src/Autonomy.antt =====
-- app/autonomy: the gates that a computer action passes, the task graph and the resources.
pub mod Actions
pub mod Gates
pub mod Approvals
pub mod Proposals
pub mod Registry
pub mod Governor
pub mod TaskGraph
pub mod Scheduler
pub mod World
pub mod Locks
pub mod Executor
pub mod Events
pub mod Missions
pub mod Engine
mod Samples
mod ApprovalSamples
mod ProposalSamples
