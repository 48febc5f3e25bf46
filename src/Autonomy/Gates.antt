-- ===== src/Autonomy/Gates.antt =====
-- app/autonomy/mode_policy.py, contracts.py and recovery.py: small gates of the action runtime. `V`
-- is the type of dynamic values, with the equality that is handed in; a state of the computer is
-- what `getattr(state, key, None)` finds in it, `none` for `None`.
pub mod Retries
use Prim.Native.String.{String}
use Prim.Native.Char.{code}
use brainless_agent.Common.{
  nat_eq, none, some, ℕ, Bool, true, false, not, ◌&&◌, ◌||◌, ◌==◌, Option, List, [], ◌∷◌, ltb,
  if◌then◌else◌, Result, ok, raise, value_error, concat, contains,
}
use brainless_agent.Common.Dict.{Dict}
use brainless_agent.Agents.Tools.{RiskLevel, ToolSpec}
use brainless_agent.Autonomy.Actions.{ErrorCode, code_value}

pub data AutonomyMode : Type 0 where
  observe_only assisted autonomous supervised watch takeover paused : AutonomyMode

pub data ModeDecision : Type 0 where
  allow approval deny : ModeDecision

-- `tool.risk is not RiskLevel.LOW or tool.destructive`
abbrev pub is_sensitive : ToolSpec → Bool
is_sensitive tool = is_above_low tool.risk || tool.destructive
  where
    is_above_low : RiskLevel → Bool
    is_above_low RiskLevel.low = false
    is_above_low risk = true

unfoldable pub decision : AutonomyMode → ToolSpec → ModeDecision
decision observe_only tool = deny
decision assisted tool = deny
decision takeover tool = deny
decision paused tool = deny
decision watch tool = if is_sensitive tool then deny else allow
decision supervised tool = if is_sensitive tool then approval else allow
decision autonomous tool = allow

pub data Idempotency : Type 0 where
  safe_to_retry conditionally_retryable not_safe_to_retry : Idempotency

pub record ActionContract (V : Type 0) : Type 0 where
  pub action_id : String
  pub tool : String
  pub required_permissions : List String
  pub preconditions : Dict V
  pub expected_effects : Dict V
  pub timeout_seconds : Option ℕ
  pub max_attempts : ℕ
  pub idempotency : Idempotency
  pub risk : String
  pub rollback_tool : Option String

module _ {V : Type 0} (same : Option V → V → Bool) (state : String → Option V) where
  unfoldable pub check_preconditions : Dict V → Result (Unit {0})
  check_preconditions [] = ok tt
  check_preconditions ((key, expected) ∷ rest) =
      if same (state key) expected
      then check_preconditions rest
      else raise (value_error (concat "Precondition failed: " key))

  unfoldable pub validate_contract : ActionContract V → String → Result (Unit {0})
  unfolding check_preconditions
  validate_contract contract permission =
      if contains permission contract.required_permissions
      then check_preconditions contract.preconditions
      else raise (value_error "Action permission is not allowed by its contract")

pub data RecoveryStrategy : Type 0 where
  retry reobserve alternative_target replan human_approval abort : RecoveryStrategy

abbrev pub is_not_safe : Idempotency → Bool
is_not_safe not_safe_to_retry = true
is_not_safe i = false

abbrev pub is_safe : Idempotency → Bool
is_safe safe_to_retry = true
is_safe i = false

-- `text.split(":", 1)[0]`
unfoldable pub before_colon : String → String
before_colon String.[] = String.[]
before_colon (String.◌∷◌ c text) =
    if nat_eq (code c) 58 then String.[] else String.◌∷◌ c (before_colon text)

-- `(error or "").split(":", 1)[0]`
unfoldable pub code_of : Option String → String
unfolding before_colon
code_of none = ""
code_of (some error) = before_colon error

-- What `choose` makes of the code.
unfoldable pub choose_for : String → Idempotency → ℕ → ℕ → RecoveryStrategy
unfolding code_value
choose_for code idempotency attempts max_attempts =
    if (code == code_value ErrorCode.permission_denied)
      || ((code == code_value ErrorCode.policy_denied)
          || (code == code_value ErrorCode.approval_required))
    then human_approval
    else if (code == code_value ErrorCode.verification_failed)
        || (code == code_value ErrorCode.action_failed)
    then if is_not_safe idempotency then reobserve else retry
    else if code == code_value ErrorCode.invalid_argument
    then replan
    else if is_safe idempotency && ltb attempts max_attempts
    then retry
    else abort

-- `RecoveryEngine.choose`
unfoldable pub choose : Option String → Idempotency → ℕ → ℕ → RecoveryStrategy
unfolding choose_for code_of
choose error idempotency attempts max_attempts =
    choose_for (code_of error) idempotency attempts max_attempts
