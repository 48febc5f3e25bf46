-- ===== src/Agents/Manager/Execute.antt =====
-- `execute_tool`: a tool runs only for a running agent that was granted it, and only if each of
-- its permissions is held or leased and passes the global policy.
use brainless_agent.Common.{
  ℕ, String, Bool, true, false, List, [], ◌∷◌, ◌++◌, if◌then◌else◌, Result, ok, raise, Error,
  permission_denied, approval_needed, cancelled, Exec, pure, throw, reads, ◌>>=◌, ◌>>◌, require,
  contains, runtime_error,
}
use brainless_agent.Common.Dict.{Dict}
use brainless_agent.Safety.Leases
use brainless_agent.Safety.Permissions
use brainless_agent.Agents.Models.{Agent, AgentStatus, EventType}
use brainless_agent.Agents.Tools.{ToolSpec}
use brainless_agent.Agents.Tools
use brainless_agent.Agents.Manager.State.{Manager, note, deny, change, get_agent}
use brainless_agent.Agents.Manager.Create.{refuse}
use brainless_agent.Agents.Manager.Delegate.{has_status, on_leases}

-- The policy check; a refusal is logged and raised again.
abbrev pub denied_by_policy : ℕ → Agent → String → Result (Unit {0}) → Exec Manager Unit
denied_by_policy now agent permission (ok u) = pure tt
denied_by_policy now agent permission (raise (permission_denied a p reason)) = do
  deny now agent.agent_id agent.parent_agent_id permission reason
  throw (permission_denied a p reason)
denied_by_policy now agent permission (raise (approval_needed a p reason)) = do
  deny now agent.agent_id agent.parent_agent_id permission reason
  throw (approval_needed a p reason)
denied_by_policy now agent permission (raise e) = throw e

unfoldable pub check_policy : ℕ → Agent → String → Exec Manager Unit
check_policy now agent permission m =
    let (result, policy) = Permissions.check agent.agent_id permission m.policy in
    denied_by_policy now agent permission result (record m { policy = policy })

-- `permission in agent.permissions or self.leases.permits(...)`: the leases are asked, and pruned,
-- only for a permission that the agent does not hold.
unfoldable pub holds : ℕ → Agent → String → Exec Manager Bool
holds now agent permission =
    if contains permission agent.permissions
    then pure true
    else on_leases (Leases.permits now agent.agent_id permission agent.current_task_id)

-- The loop over `tool.required_permissions`.
unfoldable pub check_permissions : ℕ → Agent → List String → Exec Manager Unit
check_permissions now agent [] = pure tt
check_permissions now agent (permission ∷ rest) = do
  held ← holds now agent permission
  require held (
      refuse now agent.agent_id agent.parent_agent_id permission
        "Agent does not possess this permission")
  check_policy now agent permission
  check_permissions now agent rest

-- All guards of `execute_tool`.
unfoldable pub authorize : ℕ → String → String → Exec Manager Unit
authorize now agent_id tool_id = do
  agent ← get_agent agent_id
  require (has_status AgentStatus.running agent)
      (throw (runtime_error "Only running agents may execute tools"))
  require (contains tool_id agent.available_tools)
      (refuse now agent.agent_id agent.parent_agent_id tool_id "Tool was not granted to this agent")
  tool ← reads (λ m. Tools.lookup tool_id m.tools)
  check_permissions now agent tool.required_permissions

abbrev pub add_execution : String → ℕ → Bool → String → Agent → Agent
add_execution tool_id now success detail agent = record agent {
  execution_history =
      agent.execution_history
      ++ record { tool_id = tool_id; timestamp = now; success = success; detail = detail } ∷ [];
}

-- What `execute_tool` logs of the invocation, with `str` for the text of an exception.
-- `except Exception` lets `CancelledError` pass.
unfoldable pub log_invocation :
    {V : Type 0} (str : Error → String) → ℕ → String → String → Result V → Exec Manager V
log_invocation str now agent_id tool_id (ok value) = do
  change agent_id (add_execution tool_id now true "")
  note now agent_id EventType.tool "Tool completed" (("tool", tool_id) ∷ [])
  pure value
log_invocation str now agent_id tool_id (raise cancelled) = throw cancelled
log_invocation str now agent_id tool_id (raise e) = do
  change agent_id (add_execution tool_id now false (str e))
  note now agent_id EventType.error (str e) (("tool", tool_id) ∷ [])
  throw e

module _ {W V : Type 0} (handle : String → Dict V → W → Result V × W) (str : Error → String) where
  unfoldable pub invoke_logged : ℕ → String → String → Dict V → Exec (Manager × W) V
  invoke_logged now agent_id tool_id arguments (m, world) =
      let (result, world') = Tools.invoke handle m.tools tool_id arguments world in
      let (logged, m') = log_invocation str now agent_id tool_id result m in (logged, (m', world'))

  abbrev after_guards : ℕ → String → String → Dict V → Result (Unit {0}) → Exec (Manager × W) V
  after_guards now agent_id tool_id arguments (raise e) site = (raise e, site)
  after_guards now agent_id tool_id arguments (ok u) site =
      invoke_logged now agent_id tool_id arguments site

  unfoldable pub execute_tool : ℕ → String → String → Dict V → Exec (Manager × W) V
  execute_tool now agent_id tool_id arguments (m, world) =
      let (allowed, m') = authorize now agent_id tool_id m in
      after_guards now agent_id tool_id arguments allowed (m', world)
