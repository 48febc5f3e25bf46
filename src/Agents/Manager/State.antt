-- ===== src/Agents/Manager/State.antt =====
-- The state of `AgentManager`, its event log and the access to agents by identifier.
use brainless_agent.Common.{
  ℕ, String, concat, Bool, Option, none, some, List, [], ◌∷◌, ◌++◌, ◌==◌, false, Exec, pure, throw,
  ◌>>=◌, ◌>>◌, require, key_error, permission_denied,
}
use brainless_agent.Common.Dict.{Dict, get, modify}
use brainless_agent.Safety.Permissions.{PermissionPolicy}
use brainless_agent.Safety.Leases.{Registry}
use brainless_agent.Agents.Models.{Agent, AgentEvent, EventType}
use brainless_agent.Agents.Tools.{ToolRegistry}

-- A call of the audit store, if there is one.
pub data StoreCall : Type 0 where
  store_agent : Agent → StoreCall
  store_agent_event : AgentEvent → StoreCall

-- `running` holds the keys of `_running`; `cancelled` the agents whose running task was told to
-- cancel. `audit_store` is `none` where no store is configured, else the calls made so far.
pub record Manager : Type 0 where
  pub tools : ToolRegistry
  pub policy : PermissionPolicy
  pub max_retries : ℕ
  pub agents : Dict Agent
  pub events : List AgentEvent
  pub running : List String
  pub cancelled : List String
  pub audit_store : Option (List StoreCall)
  pub leases : Registry

abbrev pub new_manager : ToolRegistry → PermissionPolicy → ℕ → Option (List StoreCall) → Manager
new_manager tools policy max_retries store = record {
  tools = tools;
  policy = policy;
  max_retries = max_retries;
  agents = [];
  events = [];
  running = [];
  cancelled = [];
  audit_store = store;
  leases = [];
}

abbrev store_calls : List StoreCall → Option (List StoreCall) → Option (List StoreCall)
store_calls calls none = none
store_calls calls (some done) = some (done ++ calls)

-- The body of `_event` for the agent object itself.
unfoldable pub log_event : ℕ → Agent → EventType → String → Dict String → Manager → Manager
log_event now agent type detail metadata m =
    let event : AgentEvent = record {
      type = type;
      agent_id = agent.agent_id;
      parent_agent_id = agent.parent_agent_id;
      task_id = agent.current_task;
      timestamp = now;
      detail = detail;
      metadata = metadata;
    } in
    record m {
      events = m.events ++ event ∷ [];
      audit_store = store_calls (store_agent agent ∷ store_agent_event event ∷ []) m.audit_store;
    }

-- `_event` for the agent known by its identifier: objects stay in the table that they were put in.
unfoldable pub note : ℕ → String → EventType → String → Dict String → Exec Manager Unit
note now agent_id type detail metadata m = elim (get agent_id m.agents) [
  | none ↦ pure tt m
  | some agent ↦ pure tt (log_event now agent type detail metadata m)
]

-- `_deny`
unfoldable pub deny : ℕ → String → Option String → String → String → Exec Manager Unit
deny now agent_id parent_agent_id permission reason m =
    let event : AgentEvent = record {
      type = EventType.permission_denied;
      agent_id = agent_id;
      parent_agent_id = parent_agent_id;
      task_id = none;
      timestamp = now;
      detail = reason;
      metadata = ("permission", permission) ∷ [];
    } in
    pure tt (record m {
      events = m.events ++ event ∷ [];
      audit_store = store_calls (store_agent_event event ∷ []) m.audit_store;
    })

-- Assignments to fields of one agent.
unfoldable pub change : String → (Agent → Agent) → Exec Manager Unit
change agent_id f m = pure tt (record m { agents = modify agent_id f m.agents })

unfoldable pub get_agent : String → Exec Manager Agent
get_agent agent_id m = elim (get agent_id m.agents) [
  | none ↦ throw (key_error (concat "Unknown agent: " agent_id)) m
  | some agent ↦ pure agent m
]

-- `child.parent_agent_id == parent_id`
abbrev pub is_parent : Option String → String → Bool
is_parent none parent_id = false
is_parent (some p) parent_id = p == parent_id

-- `_owned_child`
unfoldable pub owned_child : String → String → Exec Manager Agent
owned_child parent_agent_id agent_id = do
  parent ← get_agent parent_agent_id
  child ← get_agent agent_id
  require (is_parent child.parent_agent_id parent.agent_id)
      (throw (permission_denied parent.agent_id agent_id "Agent is not a direct child"))
  pure child
