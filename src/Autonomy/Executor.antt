-- ===== src/Autonomy/Executor.antt =====
-- app/autonomy/executor.py: `ActionRuntime`, through which every action on the computer goes.
-- `State` has its objects, `Checks` the gates of an action, `Act` the action itself, `Perform` what
-- leads to it and what becomes of it, and `Loop` the loop of observation, decision and action.
-- A call is one step: no other call of the same runtime comes in while it waits.
mod State
mod Checks
mod Act
mod Perform
mod Loop
pub mod Setup
mod Logs
pub mod Records
pub mod Consent
pub mod Mediation
pub mod Success
pub mod Verified
pub mod Bounds
mod Samples
unfoldable pub use State.*
unfoldable pub use Checks.*
unfoldable pub use Act.*
unfoldable pub use Perform.*
unfoldable pub use Loop.*
