-- ===== src/Autonomy/Executor/Loop.antt =====
-- `ActionRuntime.perform_proposal` and `run_loop`. The two limits are given; `run_loop` takes those
-- of `AutonomyLimits` where the caller gives none.
use brainless_agent.Common.{
  ℕ, zero, suc, ◌+◌, String, Bool, true, false, not, ◌&&◌, Option, none, some, List, [], ◌∷◌, ◌++◌,
  ltb, Result, ok, raise, Error, Exec, pure, throw, reads, modify_state, ◌>>=◌, ◌>>◌, if◌then◌else◌,
  error_detail, proposal_rejected, key_error,
}
use brainless_agent.Common.Dict.{get}
use brainless_agent.Autonomy.Actions.{ComputerAction, ActionResult, ErrorCode, code_value}
use brainless_agent.Autonomy.Gates.{ActionContract, RecoveryStrategy, choose, is_safe}
use brainless_agent.Autonomy.Proposals.{
  ActionProposal, ActionRequest, validate_action, to_computer_action,
}
use brainless_agent.Autonomy.World.{ComputerState, compact}
use brainless_agent.Autonomy.Executor.State.{
  Runtime, Environment, DecisionContext, outward, capture_state,
}
use brainless_agent.Autonomy.Executor.Perform.{perform, finish}

pub record AutonomyLimits : Type 0 where
  pub max_recovery_attempts : ℕ
  pub max_steps : ℕ

-- The defaults of the class
abbrev pub default_limits : AutonomyLimits
default_limits = record { max_recovery_attempts = 2; max_steps = 12 }

abbrev pub limit_or : ℕ → Option ℕ → ℕ
limit_or default none = default
limit_or default (some given) = given

abbrev pub last_of : {A : Type 0} → List A → Option A
last_of [] = none
last_of (x ∷ []) = some x
last_of (x ∷ y ∷ r) = last_of (y ∷ r)

abbrev is_retry : RecoveryStrategy → Bool
is_retry RecoveryStrategy.retry = true
is_retry strategy = false

abbrev pub may_retry : {V : Type 0} → RecoveryStrategy → ActionContract V → ℕ → Bool
may_retry strategy contract failures =
    is_retry strategy && is_safe contract.idempotency && ltb failures contract.max_attempts

-- `failures + 1 if not result.success else 0`
abbrev pub count_failures : {V : Type 0} → ActionResult V → ℕ → ℕ
count_failures result failures = if not result.success then failures + 1 else 0

-- The action of a proposal that was not accepted.
abbrev pub rejected_action :
    {V : Type 0} (action_id : String) (now : ℕ) (agent_id task_id : String)
    → ActionProposal V
    → ComputerAction V
rejected_action action_id now agent_id task_id proposal = record {
  action_type = proposal.action_type;
  arguments = proposal.arguments;
  agent_id = agent_id;
  task_id = task_id;
  reason = proposal.reason;
  permission = "";
  expected_state = [];
  action_id = action_id;
  timestamp = now;
}

-- `contains_text part text` is `part in text`, and `stem` the text before the first dot.
module _ {W V : Type 0} (env : Environment W V) (stem : String → String)
    (contains_text : String → String → Bool) where
  -- The handler of `perform_proposal`
  unfoldable pub reject_proposal :
      (agent_id task_id : String) (proposal : ActionProposal V) (error : Error)
      → Exec (Runtime W V) (ActionResult V)
  unfolding finish code_value
  reject_proposal agent_id task_id proposal error r =
      let text = env.str error in
      let now = env.clock r.outside in
      let code =
        if contains_text "not registered" text
        then ErrorCode.tool_not_found
        else ErrorCode.invalid_argument in
      finish env (rejected_action (env.new_id r.outside) now agent_id task_id proposal) false
        (some text) now (some (code_value code)) none false "auto_approve" "not_required" r

  abbrev pub with_request :
      (agent_id task_id : String) (proposal : ActionProposal V)
      → Result (ActionRequest V)
      → Exec (Runtime W V) (ActionResult V)
  with_request agent_id task_id proposal (ok request) =
      λ r. perform env stem (to_computer_action (env.clock r.outside) proposal.reason request) r
  with_request agent_id task_id proposal (raise (proposal_rejected text)) =
      reject_proposal agent_id task_id proposal (proposal_rejected text)
  with_request agent_id task_id proposal (raise (key_error text)) =
      reject_proposal agent_id task_id proposal (key_error text)
  with_request agent_id task_id proposal (raise e) = throw e

  unfoldable pub perform_proposal :
      (agent_id task_id : String) (proposal : ActionProposal V)
      → Exec (Runtime W V) (ActionResult V)
  unfolding reject_proposal
  perform_proposal agent_id task_id proposal r =
      with_request agent_id task_id proposal
        (validate_action env.is_blank r.contracts (env.new_id r.outside) agent_id task_id proposal
          [] r.manager)
        r

  abbrev pub context :
      (agent_id task_id task : String) (state : ComputerState V)
      → List (ActionResult V)
      → DecisionContext V
  context agent_id task_id task state results = record {
    agent_id = agent_id;
    task_id = task_id;
    task = task;
    state =
        compact env.values state ("browser_url" ∷ "browser_title" ∷ "visible_ui" ∷ "progress" ∷ []);
    previous = last_of results;
  }

  abbrev note_recovery : String → RecoveryStrategy → Runtime W V → Runtime W V
  note_recovery action_id strategy r = record r {
    recovery_events = r.recovery_events ++ (action_id, strategy) ∷ [];
  }

  -- The retry, after a new observation; `false` for none.
  unfoldable pub retry_if :
      Bool
      → (agent_id task_id : String) (proposal : ActionProposal V) (result : ActionResult V)
      → (results : List (ActionResult V)) (failures : ℕ)
      → Exec (Runtime W V) (List (ActionResult V) × ℕ)
  unfolding perform_proposal outward capture_state
  retry_if false agent_id task_id proposal result results failures = pure (results, failures)
  retry_if true agent_id task_id proposal result results failures = do
    state ← outward env.observe
    shot ← capture_state env "recovery_reobserve" (some result.action_id) state
    retry ← perform_proposal agent_id task_id proposal
    pure (results ++ retry ∷ [], count_failures retry failures)

  abbrev pub strategy_for : ActionResult V → ActionContract V → ℕ → RecoveryStrategy
  strategy_for result contract failures =
      choose result.error contract.idempotency failures contract.max_attempts

  -- `if not result.success and contract:`
  unfoldable pub recover :
      (agent_id task_id : String) (proposal : ActionProposal V) (result : ActionResult V)
      (results : List (ActionResult V)) (failures : ℕ)
      → Option (ActionContract V)
      → (success : Bool) → Exec (Runtime W V) (List (ActionResult V) × ℕ)
  unfolding retry_if
  recover agent_id task_id proposal result results failures none success = pure (results, failures)
  recover agent_id task_id proposal result results failures (some contract) true =
      pure (results, failures)
  recover agent_id task_id proposal result results failures (some contract) false = do
    modify_state (note_recovery result.action_id (strategy_for result contract failures))
    retry_if (may_retry (strategy_for result contract failures) contract failures) agent_id task_id
        proposal result results failures

  unfoldable pub act_on :
      (agent_id task_id : String) (results : List (ActionResult V)) (failures : ℕ)
      → Option (ActionProposal V)
      → Exec (Runtime W V) (Option (List (ActionResult V) × ℕ))
  unfolding perform_proposal recover
  act_on agent_id task_id results failures none = pure none
  act_on agent_id task_id results failures (some proposal) = do
    result ← perform_proposal agent_id task_id proposal
    contract ← reads (λ r. ok (get proposal.action_type r.contracts))
    after ←
        recover agent_id task_id proposal result (results ++ result ∷ [])
          (count_failures result failures) contract result.success
    pure (some after)

  -- One round of the loop: `none` where the provider has no action left.
  unfoldable pub one_round :
      (agent_id task_id task : String) (results : List (ActionResult V)) (failures : ℕ)
      → Exec (Runtime W V) (Option (List (ActionResult V) × ℕ))
  unfolding outward capture_state act_on
  one_round agent_id task_id task results failures = do
    state ← outward env.observe
    shot ← capture_state env "loop_observation" none state
    proposal ← outward (env.next_action (context agent_id task_id task state results))
    act_on agent_id task_id results failures proposal

  -- The end of a round, with the rest of the loop.
  abbrev pub next_round :
      (max_failures : ℕ) (results : List (ActionResult V))
      → (List (ActionResult V) → ℕ → Exec (Runtime W V) (List (ActionResult V)))
      → Option (List (ActionResult V) × ℕ)
      → Exec (Runtime W V) (List (ActionResult V))
  next_round max_failures results rest none = pure results
  next_round max_failures results rest (some (results', failures)) =
      if ltb max_failures failures
      then throw (error_detail (code_value ErrorCode.action_failed) "Failure budget exhausted")
      else rest results' failures

  -- The `for` loop of `run_loop` with the steps that are left.
  unfoldable pub loop_steps :
      (max_failures : ℕ) (agent_id task_id task : String)
      → ℕ
      → (results : List (ActionResult V)) (failures : ℕ)
      → Exec (Runtime W V) (List (ActionResult V))
  unfolding one_round code_value
  loop_steps max_failures agent_id task_id task zero results failures =
      throw (error_detail (code_value ErrorCode.action_timeout) "Step budget exhausted")
  loop_steps max_failures agent_id task_id task (suc steps) results failures = do
    after ← one_round agent_id task_id task results failures
    next_round max_failures results (loop_steps max_failures agent_id task_id task steps) after

  unfoldable pub run_loop :
      (limits : AutonomyLimits) (max_steps max_failures : Option ℕ) (agent_id task_id task : String)
      → Exec (Runtime W V) (List (ActionResult V))
  unfolding loop_steps
  run_loop limits max_steps max_failures agent_id task_id task =
      loop_steps (limit_or limits.max_recovery_attempts max_failures) agent_id task_id task
        (limit_or limits.max_steps max_steps) [] 0
