-- ===== src/Safety.antt =====
-- app/safety: permissions and their policy, leases, the emergency stop and the pause controls.
pub mod Permissions
pub mod Leases
pub mod Controls
mod Samples
