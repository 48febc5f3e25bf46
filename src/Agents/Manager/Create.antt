-- ===== src/Agents/Manager/Create.antt =====
-- Creation of the root agent and of child agents.
use brainless_agent.Common.{
  ℕ, String, Option, none, some, List, [], ◌∷◌, ◌++◌, ◌==◌, if◌then◌else◌, Exec, pure, throw, reads,
  ◌>>=◌, ◌>>◌, require, any, is_none, is_some, value_error, permission_denied, subset, difference,
  least, is_empty,
}
use brainless_agent.Common.Dict.{Dict, get, put, modify, values}
use brainless_agent.Agents.Models.{Agent, AgentStatus, EventType}
use brainless_agent.Agents.Tools.{ToolSpec, RiskLevel}
use brainless_agent.Agents.Tools
use brainless_agent.Agents.Manager.State.{Manager, log_event, deny, get_agent}

-- `a or b` on an optional text: the empty text counts as none.
abbrev pub or_else : Option String → Option String → Option String
or_else none b = b
or_else (some a) b = if a == "" then b else some a

abbrev pub text_or : Option String → String → String
text_or none b = b
text_or (some a) b = if a == "" then b else a

abbrev pub new_agent :
    (now : ℕ) (agent_id name role objective : String) (permissions : List String) → Agent
new_agent now agent_id name role objective permissions = record {
  name = name;
  role = role;
  objective = objective;
  current_task = none;
  current_task_id = none;
  parent_agent_id = none;
  permissions = permissions;
  available_tools = [];
  event_subscriptions = [];
  allowed_applications = [];
  allowed_directories = [];
  risk_policy = "medium";
  context = [];
  agent_id = agent_id;
  status = AgentStatus.ready;
  created_at = now;
  child_agents = [];
  execution_history = [];
  result = none;
  error = none;
  retries = 0;
}

unfoldable pub create_root :
    (now : ℕ) (new_id name role objective : String) (permissions : List String) → Exec Manager Agent
create_root now new_id name role objective permissions m =
    if any (values m.agents) (λ agent. is_none agent.parent_agent_id)
    then throw (value_error "Only one root agent may be created per manager") m
    else let root = new_agent now new_id name role objective permissions in
      pure root (
        log_event now root EventType.status "Root agent created" []
          (record m { agents = put new_id root m.agents }))

-- A refusal: the event of `_deny`, then the exception.
unfoldable pub refuse : {A : Type 0} → ℕ → String → Option String → String → String → Exec Manager A
refuse now agent_id parent_agent_id permission reason m =
    let (_, m') = deny now agent_id parent_agent_id permission reason m in
    throw (permission_denied agent_id permission reason) m'

-- `sorted(missing)[0]` of a set with a member
abbrev pub first_missing : List String → String
first_missing [] = ""
first_missing (x ∷ xs) = least x xs

-- The loop over `allowed_tools` in `create_agent`.
unfoldable pub check_tools : ℕ → Agent → List String → List String → Exec Manager Unit
check_tools now parent requested [] = pure tt
check_tools now parent requested (tool_id ∷ rest) = do
  tool ← reads (λ m. Tools.lookup tool_id m.tools)
  require (subset tool.required_permissions requested) (
      refuse now parent.agent_id parent.parent_agent_id
        (first_missing (difference tool.required_permissions requested))
        "Child lacks required tool permission")
  check_tools now parent requested rest

abbrev set_task_id : Option String → Dict String → Dict String
set_task_id none context = context
set_task_id (some task_id) context = put "task_id" task_id context

-- The agent that `create_agent` builds.
unfoldable pub new_child :
    (now : ℕ) (new_id new_task_id parent_agent_id name role objective : String)
    (task : Option String) (permissions tools : List String) (context : Dict String)
    (task_id : Option String)
    → Agent
new_child now new_id new_task_id parent_agent_id name role objective task permissions tools context
      task_id =
    let generated : Option String = if is_some task then some new_task_id else none in
    let resolved = or_else task_id (or_else (get "task_id" context) generated) in
    let agent = new_agent now new_id name role objective permissions in
    record agent {
      current_task = task;
      current_task_id = resolved;
      parent_agent_id = some parent_agent_id;
      available_tools = tools;
      context = set_task_id resolved context;
    }

unfoldable pub add_child : ℕ → Agent → String → Exec Manager Agent
add_child now child parent_agent_id m = pure child (
    log_event now child EventType.task (text_or child.current_task "Agent created") [] (record m {
      agents =
          modify parent_agent_id
            (λ parent. record parent { child_agents = parent.child_agents ++ child.agent_id ∷ [] })
            (put child.agent_id child m.agents);
    }))

unfoldable pub create_agent :
    (now : ℕ) (new_id new_task_id parent_agent_id name role objective : String)
    (task : Option String) (permissions tools : List String) (context : Dict String)
    (task_id : Option String)
    → Exec Manager Agent
create_agent now new_id new_task_id parent_agent_id name role objective task permissions tools
      context task_id =
    do
      parent ← get_agent parent_agent_id
      let missing = difference permissions parent.permissions
      require (is_empty missing) (
          refuse now parent_agent_id parent.parent_agent_id (first_missing missing)
            "Parent does not possess this permission")
      check_tools now parent permissions tools
      add_child now
          (new_child now new_id new_task_id parent_agent_id name role objective task permissions
            tools context task_id)
          parent_agent_id
