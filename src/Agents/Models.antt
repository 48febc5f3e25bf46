-- ===== src/Agents/Models.antt =====
-- app/agents/models.py. A set is the list of its members, a time a number of microseconds.
-- `resource_limits`, a table of floats that the manager neither reads nor writes, is left out.
use brainless_agent.Common.{ℕ, String, Bool, Option, List}
use brainless_agent.Common.Dict.{Dict}

pub data AgentStatus : Type 0 where
  created ready running waiting blocked completed failed paused terminated : AgentStatus

unfoldable pub AgentStatus-discrete : Discrete AgentStatus
AgentStatus-discrete = hlevel

pub data EventType : Type 0 where
  task status result error progress permission_denied tool : EventType

pub record AgentEvent : Type 0 where
  pub type : EventType
  pub agent_id : String
  pub parent_agent_id : Option String
  pub task_id : Option String
  pub timestamp : ℕ
  pub detail : String
  pub metadata : Dict String

pub record ToolExecution : Type 0 where
  pub tool_id : String
  pub timestamp : ℕ
  pub success : Bool
  pub detail : String

pub record Agent : Type 0 where
  pub name : String
  pub role : String
  pub objective : String
  pub current_task : Option String
  pub current_task_id : Option String
  pub parent_agent_id : Option String
  pub permissions : List String
  pub available_tools : List String
  pub event_subscriptions : List String
  pub allowed_applications : List String
  pub allowed_directories : List String
  pub risk_policy : String
  pub context : Dict String
  pub agent_id : String
  pub status : AgentStatus
  pub created_at : ℕ
  pub child_agents : List String
  pub execution_history : List ToolExecution
  pub result : Option String
  pub error : Option String
  pub retries : ℕ
