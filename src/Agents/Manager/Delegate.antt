-- ===== src/Agents/Manager/Delegate.antt =====
-- Tasks, grants, leases and tools: the methods that hand authority down to a direct child.
use brainless_agent.Common.{
  ℕ, String, Bool, true, false, Option, none, some, List, [], ◌∷◌, ◌==◌, not, ◌&&◌, if◌then◌else◌,
  Exec, pure, throw, reads, ◌>>=◌, ◌>>◌, require, runtime_error, contains, add, discard, subset,
  difference, sorted, join, is_empty,
}
use brainless_agent.Common.Dict.{Dict, put}
use brainless_agent.Safety.Leases.{CapabilityLease, Registry}
use brainless_agent.Safety.Leases
use brainless_agent.Agents.Models.{Agent, AgentStatus, AgentStatus-discrete, EventType}
use brainless_agent.Agents.Tools.{ToolSpec, RiskLevel}
use brainless_agent.Agents.Tools
use brainless_agent.Agents.Manager.State.{Manager, note, change, get_agent, owned_child}
use brainless_agent.Agents.Manager.Create.{text_or, first_missing, refuse}

-- The fields that `assign_task` sets.
abbrev pub assigned : String → String → Dict String → Agent → Agent
assigned task task_id context agent = record agent {
  current_task = some task;
  current_task_id = some task_id;
  context = put "task_id" task_id context;
  result = none;
  error = none;
  status = AgentStatus.ready;
}

abbrev pub has_status : AgentStatus → Agent → Bool
has_status status agent = elim (AgentStatus-discrete agent.status status) [
  | yes _ ↦ true
  | no _ ↦ false
]

unfoldable pub assign_task :
    (now : ℕ) (new_task_id parent_agent_id agent_id task : String) (context : Dict String)
    (task_id : Option String)
    → Exec Manager Unit
assign_task now new_task_id parent_agent_id agent_id task context task_id = do
  agent ← owned_child parent_agent_id agent_id
  require (not (has_status AgentStatus.terminated agent))
      (throw (runtime_error "Cannot assign a task to a terminated agent"))
  change agent_id (assigned task (text_or task_id new_task_id) context)
  note now agent_id EventType.task task []

abbrev pub with_permission : String → Agent → Agent
with_permission permission agent = record agent { permissions = add permission agent.permissions }

abbrev pub without_permission : String → Agent → Agent
without_permission permission agent = record agent {
  permissions = discard permission agent.permissions;
}

unfoldable pub grant_permission :
    (now : ℕ) (parent_agent_id agent_id permission : String) → Exec Manager Unit
grant_permission now parent_agent_id agent_id permission = do
  parent ← get_agent parent_agent_id
  owned_child parent_agent_id agent_id
  require (contains permission parent.permissions) (
      refuse now parent.agent_id parent.parent_agent_id permission
        "Parent does not possess this permission")
  change agent_id (with_permission permission)
  note now agent_id EventType.status "Permission granted" (("permission", permission) ∷ [])

unfoldable pub revoke_permission :
    (now : ℕ) (parent_agent_id agent_id permission : String) → Exec Manager Unit
revoke_permission now parent_agent_id agent_id permission = do
  owned_child parent_agent_id agent_id
  change agent_id (without_permission permission)
  note now agent_id EventType.status "Permission revoked" (("permission", permission) ∷ [])

-- A call of the lease registry that the manager owns.
abbrev pub on_leases : {A : Type 0} → Exec Registry A → Exec Manager A
on_leases call m = let (result, leases) = call m.leases in (result, record m { leases = leases })

-- `child.current_task_id != task_id` is false
abbrev pub is_task : Option String → String → Bool
is_task none task_id = false
is_task (some t) task_id = t == task_id

-- `isoformat` is `datetime.isoformat` of a time in microseconds.
unfoldable pub lease_permission :
    (isoformat : ℕ → String) (now : ℕ)
    (lease_id parent_agent_id agent_id permission task_id : String) (seconds : ℕ)
    → Exec Manager CapabilityLease
lease_permission isoformat now lease_id parent_agent_id agent_id permission task_id seconds = do
  parent ← get_agent parent_agent_id
  child ← owned_child parent_agent_id agent_id
  require (contains permission parent.permissions && is_task child.current_task_id task_id) (
      refuse now child.agent_id child.parent_agent_id permission
        "Lease authority or task scope is invalid")
  lease ← on_leases (Leases.grant lease_id now child.agent_id permission task_id seconds)
  note now agent_id EventType.status "Capability leased" (
      ("permission", permission)
      ∷ ("task_id", task_id)
      ∷ ("lease_id", lease.lease_id)
      ∷ ("expires_at", isoformat lease.expires_at)
      ∷ [])
  pure lease

unfoldable pub grant_tool :
    (now : ℕ) (parent_agent_id agent_id tool_id : String) → Exec Manager Unit
grant_tool now parent_agent_id agent_id tool_id = do
  child ← owned_child parent_agent_id agent_id
  tool ← reads (λ m. Tools.lookup tool_id m.tools)
  let missing = difference tool.required_permissions child.permissions
  require (is_empty missing) (
      refuse now child.agent_id child.parent_agent_id (first_missing missing)
        "Child lacks required tool permission")
  change agent_id (λ a. record a { available_tools = add tool_id a.available_tools })
  note now agent_id EventType.status "Tool granted" (("tool", tool_id) ∷ [])

unfoldable pub set_event_subscriptions :
    (now : ℕ) (parent_agent_id agent_id : String) (subscriptions : List String) → Exec Manager Unit
set_event_subscriptions now parent_agent_id agent_id subscriptions = do
  owned_child parent_agent_id agent_id
  change agent_id (λ a. record a { event_subscriptions = subscriptions })
  note now agent_id EventType.status "Event subscriptions updated"
      (("subscriptions", join "," (sorted subscriptions)) ∷ [])

-- What `available_tools` tells of one tool.
pub record ToolView : Type 0 where
  pub tool_id : String
  pub description : String
  pub permissions : List String
  pub risk : RiskLevel

unfoldable pub tool_views : List String → List String → Exec Manager (List ToolView)
tool_views permissions [] = pure []
tool_views permissions (tool_id ∷ rest) = do
  tool ← reads (λ m. Tools.lookup tool_id m.tools)
  views ← tool_views permissions rest
  let view : ToolView = record {
    tool_id = tool.tool_id;
    description = tool.description;
    permissions = sorted tool.required_permissions;
    risk = tool.risk;
  }
  pure (if subset tool.required_permissions permissions then view ∷ views else views)

unfoldable pub available_tools : String → Exec Manager (List ToolView)
available_tools agent_id = do
  agent ← get_agent agent_id
  tool_views agent.permissions (sorted agent.available_tools)
