-- ===== src/Agents/Manager.antt =====
-- app/agents/manager.py: the manager of the agent hierarchy. The state and the helpers that every
-- method uses are in `State`; `Create` makes agents, `Delegate` has tasks and grants, `Lifecycle`
-- the runs of an agent, `Execute` the tool calls. Times and new identifiers are arguments of the
-- methods.
mod State
mod Create
mod Delegate
mod Lifecycle
mod Execute
unfoldable pub use State.*
unfoldable pub use Create.*
unfoldable pub use Delegate.*
unfoldable pub use Lifecycle.*
unfoldable pub use Execute.*
