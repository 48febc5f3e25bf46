-- ===== src/Autonomy/Executor/Checks.antt =====
-- The gates of `ActionRuntime.perform`, in the order of the code, up to the `try` around the locks.
use brainless_agent.Common.{
  String, concat, Bool, true, false, not, ◌||◌, ◌==◌, Option, none, some, contains, Result, ok,
  raise, Error, Exec, pure, throw, reads, ◌>>=◌, if◌then◌else◌, value_error, permission_denied,
  approval_needed, proposal_rejected,
}
use brainless_agent.Common.Dict.{get}
use brainless_agent.Safety.Permissions
use brainless_agent.Agents.Manager.{Manager}
use brainless_agent.Agents.Tools.{ToolSpec}
use brainless_agent.Autonomy.Actions.{ComputerAction, ErrorCode}
use brainless_agent.Autonomy.Gates.{ModeDecision, ActionContract, decision, validate_contract}
use brainless_agent.Autonomy.Governor.{GovernorDecision, evaluate, one}
use brainless_agent.Autonomy.World.{Values, getattr}
use brainless_agent.Autonomy.Executor.State.{Runtime, Environment, outward, attempt, capture_state}

-- How the gates end: refused, with the code, the error, and what the audit says of policy and
-- approval; or passed, with the last two.
pub data Verdict : Type 0 where
  refused : ErrorCode → (error policy approval : String) → Verdict
  passed : (policy approval : String) → Verdict

-- `_result` without its last arguments
abbrev pub plain : ErrorCode → String → Verdict
plain code error = refused code error "auto_approve" "not_required"

-- `getattr(state, key, None) == expected`
abbrev pub same_or_nothing : {V : Type 0} → Values V → Option V → V → Bool
same_or_nothing values none expected = values.same values.nothing expected
same_or_nothing values (some value) expected = values.same value expected

module _ {W V : Type 0} (env : Environment W V) (action : ComputerAction V) where
  -- The answer of the approval handler; `none` where there is no handler.
  unfoldable pub ask_handler :
      Option (ComputerAction V → W → Result Bool × W) → Exec (Runtime W V) (Option Bool)
  unfolding outward
  ask_handler none = pure none
  ask_handler (some handler) = do answer ← outward (handler action); pure (some answer)

  unfoldable pub ask : Exec (Runtime W V) (Option Bool)
  unfolding ask_handler
  ask = ask_handler env.approval_handler

  abbrev pub give_once : Manager → Manager
  give_once m = record m {
    policy = Permissions.approve_once action.agent_id action.permission m.policy;
  }

  -- The handler of `except ApprovalRequired`, by the answer.
  unfoldable pub approve_policy : Error → Option Bool → Exec (Runtime W V) Verdict
  approve_policy error none =
      pure (refused ErrorCode.approval_required (env.str error) "require_approval" "required")
  approve_policy error (some false) =
      pure (refused ErrorCode.policy_denied "Approval denied" "deny" "denied")
  approve_policy error (some true) =
      λ r. pure (passed "require_approval" "approved") (record r { manager = give_once r.manager })

  unfoldable pub after_policy :
      (policy approval : String) → Result (Unit {0}) → Exec (Runtime W V) Verdict
  unfolding ask approve_policy
  after_policy policy approval (ok u) = pure (passed policy approval)
  after_policy policy approval (raise (approval_needed a p reason)) = do
    answer ← ask
    approve_policy (approval_needed a p reason) answer
  after_policy policy approval (raise (permission_denied a p reason)) = pure (
      refused ErrorCode.policy_denied (env.str (permission_denied a p reason)) "deny"
        "not_required")
  after_policy policy approval (raise e) = throw e

  -- `self.manager.policy.check(...)` and its handlers
  unfoldable pub gate_policy : (policy approval : String) → Exec (Runtime W V) Verdict
  unfolding after_policy
  gate_policy policy approval r =
      let (result, checked) =
        Permissions.check action.agent_id action.permission r.manager.policy in
      after_policy policy approval result
        (record r { manager = record r.manager { policy = checked } })

  -- Observe, and `contract.validate`.
  unfoldable pub try_contract : ActionContract V → Exec (Runtime W V) Unit
  unfolding outward capture_state
  try_contract contract = do
    state ← outward env.observe
    shot ← capture_state env "precondition" none state
    reads (λ r.
        validate_contract (same_or_nothing env.values) (getattr env.values state) contract
          action.permission)

  unfoldable pub after_contract :
      (policy approval : String) → Result (Unit {0}) → Exec (Runtime W V) Verdict
  unfolding gate_policy
  after_contract policy approval (ok u) = gate_policy policy approval
  after_contract policy approval (raise (value_error text)) =
      pure (plain ErrorCode.invalid_argument (env.str (value_error text)))
  after_contract policy approval (raise (proposal_rejected text)) =
      pure (plain ErrorCode.invalid_argument (env.str (proposal_rejected text)))
  after_contract policy approval (raise e) = throw e

  abbrev pub breaks_contract : ActionContract V → Bool
  breaks_contract contract =
      not (contract.tool == action.action_type)
      || not (contains action.permission contract.required_permissions)

  unfoldable pub with_contract :
      (policy approval : String) → Option (ActionContract V) → Exec (Runtime W V) Verdict
  unfolding try_contract after_contract attempt
  with_contract policy approval none = gate_policy policy approval
  with_contract policy approval (some contract) =
      if breaks_contract contract
      then pure (plain ErrorCode.invalid_argument "Action violates its registered contract")
      else attempt (try_contract contract) >>= after_contract policy approval

  unfoldable pub gate_contract : (policy approval : String) → Exec (Runtime W V) Verdict
  unfolding with_contract
  gate_contract policy approval r =
      with_contract policy approval (get action.action_type r.contracts) r

  unfoldable pub after_mode : Option Bool → Exec (Runtime W V) Verdict
  unfolding gate_contract
  after_mode none = pure (
      refused ErrorCode.approval_required "Autonomy mode requires approval" "mode_approval"
        "required")
  after_mode (some false) = pure (refused ErrorCode.policy_denied "Approval denied" "deny" "denied")
  after_mode (some true) = gate_contract "mode_approval" "approved"

  unfoldable pub gate_mode : ModeDecision → Exec (Runtime W V) Verdict
  unfolding ask after_mode
  gate_mode ModeDecision.deny = pure (
      refused ErrorCode.policy_denied "Autonomy mode forbids this action" "mode_deny"
        "not_required")
  gate_mode ModeDecision.approval = ask >>= after_mode
  gate_mode ModeDecision.allow = gate_contract "auto_approve" "not_required"

  -- What follows `self.governor.evaluate(action, tool)`, by its decision.
  unfoldable pub after_governor :
      ToolSpec → (reason : String) → GovernorDecision → Exec (Runtime W V) Verdict
  unfolding gate_mode
  after_governor tool reason GovernorDecision.deny =
      pure (refused ErrorCode.policy_denied reason (concat "governor:" reason) "not_required")
  after_governor tool reason GovernorDecision.approval = gate_mode ModeDecision.approval
  after_governor tool reason GovernorDecision.allow = λ r. gate_mode (decision r.mode tool) r

  unfoldable pub gate_tool : Option ToolSpec → Exec (Runtime W V) Verdict
  unfolding after_governor
  gate_tool none = pure (plain ErrorCode.tool_not_found "Tool is not registered")
  gate_tool (some tool) =
      if contains action.permission tool.required_permissions
      then (do
        governed ← reads (λ r. evaluate action tool one r.governor)
        after_governor tool governed.reason governed.decision)
      else pure
          (plain ErrorCode.invalid_argument "Action permission does not match registered tool")

  unfoldable pub gates : Exec (Runtime W V) Verdict
  unfolding gate_tool
  gates r = gate_tool (get action.action_type r.manager.tools) r
