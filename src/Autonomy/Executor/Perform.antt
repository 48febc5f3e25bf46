-- ===== src/Autonomy/Executor/Perform.antt =====
-- `ActionRuntime._result` and `perform`.
use brainless_agent.Common.{
  ℕ, ◌-◌, String, concat, Bool, true, false, not, ◌&&◌, ◌||◌, ◌==◌, Option, none, some, [], ◌∷◌,
  ◌++◌, is_empty, Result, ok, raise, Error, Exec, pure, throw, reads, modify_state, ◌>>=◌, ◌>>◌,
  if◌then◌else◌, value_error, permission_denied, approval_needed, timeout_error, error_detail,
  resource_busy, cancelled, proposal_rejected, keep,
}
use brainless_agent.Common.Dict.{Dict, get, put}
use brainless_agent.Agents.Models.{Agent}
use brainless_agent.Agents.Manager.{get_agent}
use brainless_agent.Autonomy.Actions.{ComputerAction, ActionResult, ErrorCode, code_value}
use brainless_agent.Autonomy.Gates.{ActionContract}
use brainless_agent.Autonomy.Governor.{record_result}
use brainless_agent.Autonomy.World.{Values, ComputerState, WorldSnapshot, diff}
use brainless_agent.Autonomy.World.Model.{update}
use brainless_agent.Autonomy.Executor.State.{
  AuditRecord, Runtime, Environment, on_manager, on_governor, attempt, write_journal, appended,
}
use brainless_agent.Autonomy.Executor.Checks.{Verdict, refused, passed, gates, same_or_nothing}
use brainless_agent.Autonomy.World
use brainless_agent.Autonomy.Executor.Act.{Ran, run_locked}

-- The text of a result's error, with the value of the code and what `redact` leaves.
abbrev pub text_of : (String → String) → Option String → Option String → Option String
text_of redact none none = none
text_of redact none (some e) = some (redact e)
text_of redact (some code) none = some (concat code ": None")
text_of redact (some code) (some e) = some (concat code (concat ": " (redact e)))

abbrev text_or_none : {V : Type 0} → (V → String) → Option V → Option String
text_or_none as_text none = none
text_or_none as_text (some v) = some (as_text v)

-- `_verify`
unfoldable pub verify : {V : Type 0} → Values V → Dict V → ComputerState V → Bool
verify values [] state = true
verify values ((key, value) ∷ rest) state =
    same_or_nothing values (World.getattr values state key) value && verify values rest state

-- What the handlers after the locks make of an exception: its code and its text; `none` for one that
-- they let pass.
abbrev or_timed_out : String → String
or_timed_out text = if text == "" then "Action timed out" else text

unfoldable pub failure_of : (Error → String) → Error → Option (String × String)
unfolding code_value
failure_of str (permission_denied a p reason) =
    some (code_value ErrorCode.permission_denied, str (permission_denied a p reason))
failure_of str (approval_needed a p reason) =
    some (code_value ErrorCode.permission_denied, str (approval_needed a p reason))
failure_of str (value_error text) =
    some (code_value ErrorCode.invalid_argument, str (value_error text))
failure_of str (proposal_rejected text) =
    some (code_value ErrorCode.invalid_argument, str (proposal_rejected text))
failure_of str (error_detail code text) = some (code, str (error_detail code text))
failure_of str (timeout_error text) =
    some (code_value ErrorCode.action_timeout, or_timed_out (str (timeout_error text)))
failure_of str (resource_busy text) =
    some (code_value ErrorCode.action_timeout, or_timed_out (str (resource_busy text)))
failure_of str cancelled = none
failure_of str e = some (code_value ErrorCode.action_failed, str e)

module _ {W V : Type 0} (env : Environment W V) where
  -- What of an agent `_result` reads, when it appends to `audit`.
  abbrev pub audit_record :
      (action : ComputerAction V) (agent : Agent) (output : Option V) (result : ActionResult V)
      (policy approval : String)
      → Dict V
      → AuditRecord V
  audit_record action agent output result policy approval arguments = record {
    timestamp = action.timestamp;
    agent_id = action.agent_id;
    parent_agent_id = agent.parent_agent_id;
    task_id = action.task_id;
    action_id = action.action_id;
    tool = action.action_type;
    permission = action.permission;
    arguments = arguments;
    result = text_or_none env.as_text output;
    error = result.error;
    duration = result.duration_ms;
    policy_decision = policy;
    approval_status = approval;
  }

  abbrev redact_option : Option V → Option V
  redact_option none = none
  redact_option (some v) = some (env.redact v)

  unfoldable pub redact_all : Dict V → Dict V
  redact_all [] = []
  redact_all ((key, value) ∷ rest) = (key, env.redact value) ∷ redact_all rest

  abbrev pub result_of :
      (action : ComputerAction V) (success : Bool) (error : Option String) (duration : ℕ)
      (code : Option String) (output : Option V) (verified : Bool)
      → ActionResult V
  result_of action success error duration code output verified = record {
    action_id = action.action_id;
    success = success;
    output = redact_option output;
    error = text_of env.redact_text code error;
    verified = verified;
    duration_ms = duration;
  }

  abbrev pub complete_action : ActionResult V → Runtime W V → Runtime W V
  complete_action result r = record r { completed = put result.action_id result r.completed }

  abbrev pub write_audit : AuditRecord V → Runtime W V → Runtime W V
  write_audit item r = record r {
    audit = r.audit ++ item ∷ [];
    audit_store = appended item r.audit_store;
  }

  -- `_result`
  unfoldable pub finish :
      (action : ComputerAction V) (success : Bool) (error : Option String) (started : ℕ)
      (code : Option String) (output : Option V) (verified : Bool) (policy approval : String)
      → Exec (Runtime W V) (ActionResult V)
  unfolding on_governor on_manager write_journal redact_all
  finish action success error started code output verified policy approval = do
    result ← reads (λ r.
        ok (result_of action success error (env.clock r.outside - started) code output verified))
    modify_state (complete_action result)
    on_governor (record_result action.task_id success)
    agent ← on_manager (get_agent action.agent_id)
    modify_state (
        write_audit (
          audit_record action agent result.output result policy approval
            (redact_all action.arguments)))
    modify_state (
        write_journal action.task_id
          (if verified then "VERIFICATION_PASSED" else "VERIFICATION_FAILED") action.action_id)
    pure result

  -- `{**contract.expected_effects, **expected}`
  abbrev pub with_effects : Option (ActionContract V) → Dict V → Dict V
  with_effects none expected = expected
  with_effects (some contract) expected = update contract.expected_effects expected

  abbrev pub expected_of : Option (ActionContract V) → ComputerAction V → Dict V
  expected_of contract action =
      with_effects contract (keep (λ item. not (item.0 == "state_changed")) action.expected_state)

  abbrev wants_change : Option V → Bool
  wants_change none = false
  wants_change (some v) = env.truthy v

  -- What is verified of an action that ran.
  unfoldable pub is_verified : Option (ActionContract V) → ComputerAction V → Ran V → Bool
  unfolding diff
  is_verified contract action ran =
      let expected = expected_of contract action in
      env.verifier expected ran.observed ran.output
      && not (ran.comparison.invalidated && not (is_empty expected))
      && (not (wants_change (get "state_changed" action.expected_state))
          || not (is_empty (diff env.values.same ran.before ran.after)))

  abbrev pub not_observed : Bool → Option String
  not_observed true = none
  not_observed false = some "Expected state was not observed"

  abbrev pub not_observed_code : Bool → Option String
  not_observed_code true = none
  not_observed_code false = some (code_value ErrorCode.verification_failed)

  abbrev pub failed_or_raise :
      Error
      → Option (String × String)
      → ComputerAction V
      → ℕ
      → (policy approval : String) → Exec (Runtime W V) (ActionResult V)
  failed_or_raise e none action started policy approval = throw e
  failed_or_raise e (some (code, text)) action started policy approval =
      finish action false (some text) started (some code) none false policy approval

  -- From the handlers after the locks to the end.
  unfoldable pub conclude :
      Option (ActionContract V)
      → ComputerAction V
      → ℕ
      → (policy approval : String) → Result (Ran V)
      → Exec (Runtime W V) (ActionResult V)
  unfolding finish failure_of is_verified
  conclude contract action started policy approval (raise e) =
      failed_or_raise e (failure_of env.str e) action started policy approval
  conclude contract action started policy approval (ok ran) =
      let verified = is_verified contract action ran in
      finish action verified (not_observed verified) started (not_observed_code verified)
        (some ran.output) verified policy approval

  unfoldable pub after_gates :
      (stem : String → String)
      → ComputerAction V
      → ℕ
      → Verdict
      → Exec (Runtime W V) (ActionResult V)
  unfolding conclude run_locked attempt
  after_gates stem action started (refused code error policy approval) =
      finish action false (some error) started (some (code_value code)) none false policy approval
  after_gates stem action started (passed policy approval) = λ r.
      let contract = get action.action_type r.contracts in
      (attempt (run_locked env stem contract action)
          >>= conclude contract action started policy approval)
        r

  -- `perform` of an action that was not performed before
  unfoldable pub perform_new :
      (stem : String → String) → ComputerAction V → Exec (Runtime W V) (ActionResult V)
  unfolding after_gates write_journal gates
  perform_new stem action = do
    started ← reads (λ r. ok (env.clock r.outside))
    modify_state (write_journal action.task_id "ACTION_STARTED" action.action_id)
    verdict ← gates env action
    after_gates stem action started verdict

  abbrev pub known_or_new :
      (stem : String → String)
      → ComputerAction V
      → Option (ActionResult V)
      → Exec (Runtime W V) (ActionResult V)
  known_or_new stem action (some result) = pure result
  known_or_new stem action none = perform_new stem action

  unfoldable pub perform :
      (stem : String → String) → ComputerAction V → Exec (Runtime W V) (ActionResult V)
  unfolding perform_new
  perform stem action r = known_or_new stem action (get action.action_id r.completed) r
