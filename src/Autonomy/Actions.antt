-- ===== src/Autonomy/Actions.antt =====
-- The data of app/autonomy/models.py that the gates read. `V` is the type of a dynamic value, and
-- a time is a number of microseconds.
use brainless_agent.Common.{ℕ, String, Bool, Option}
use brainless_agent.Common.Dict.{Dict}

pub data ErrorCode : Type 0 where
  permission_denied capability_unavailable tool_not_found invalid_argument resource_busy : ErrorCode
  action_failed action_timeout verification_failed policy_denied approval_required : ErrorCode

-- `ErrorCode.X.value`
unfoldable pub code_value : ErrorCode → String
code_value permission_denied = "PERMISSION_DENIED"
code_value capability_unavailable = "CAPABILITY_UNAVAILABLE"
code_value tool_not_found = "TOOL_NOT_FOUND"
code_value invalid_argument = "INVALID_ARGUMENT"
code_value resource_busy = "RESOURCE_BUSY"
code_value action_failed = "ACTION_FAILED"
code_value action_timeout = "ACTION_TIMEOUT"
code_value verification_failed = "VERIFICATION_FAILED"
code_value policy_denied = "POLICY_DENIED"
code_value approval_required = "APPROVAL_REQUIRED"

pub record ComputerAction (V : Type 0) : Type 0 where
  pub action_type : String
  pub arguments : Dict V
  pub agent_id : String
  pub task_id : String
  pub reason : String
  pub permission : String
  pub expected_state : Dict V
  pub action_id : String
  pub timestamp : ℕ

pub record ActionResult (V : Type 0) : Type 0 where
  pub action_id : String
  pub success : Bool
  pub output : Option V
  pub error : Option String
  pub verified : Bool
  pub duration_ms : ℕ
