-- ===== src/Agents/Authority.antt =====
-- Where the authority of an agent comes from: theorems about creation, grants and revocation in
-- app/agents/manager.py, over every history of calls.
pub mod Confined
pub mod Frame
pub mod Delegation
pub mod Creation
pub mod Leasing
pub mod Tooling
pub mod Confinement
