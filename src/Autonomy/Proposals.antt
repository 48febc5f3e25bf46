-- ===== src/Autonomy/Proposals.antt =====
-- app/autonomy/proposals.py: what the runtime makes of the untrusted output of a reasoning
-- provider. The tests of `isinstance` hold by the types. `is_blank` is `not text.strip()`, and new
-- identifiers are handed in. Confidences are millionths, so that none is negative.
pub mod Authority
use brainless_agent.Common.{
  ℕ, suc, ◌+◌, String, Bool, true, false, not, ◌&&◌, ◌||◌, ◌==◌, Option, none, some, is_none, List,
  [], ◌∷◌, leb, length, nat_eq, is_empty, if◌then◌else◌, Result, ok, raise, proposal_rejected,
  difference, subset, contains,
}
use brainless_agent.Common.Dict.{Dict, get, keys}
use brainless_agent.Agents.Models.{Agent}
use brainless_agent.Agents.Tools.{RiskLevel, ToolSpec}
use brainless_agent.Agents.Manager.{Manager, get_agent, is_task}
use brainless_agent.Autonomy.Actions.{ComputerAction}
use brainless_agent.Autonomy.Gates.{ActionContract, Idempotency}

pub record ActionProposal (V : Type 0) : Type 0 where
  pub action_type : String
  pub arguments : Dict V
  pub reason : String
  pub expected_state : Dict V

pub data ProposalType : Type 0 where
  action plan observe replan : ProposalType

pub record ReasoningProposal (V : Type 0) : Type 0 where
  pub proposal_id : String
  pub goal_id : String
  pub task_id : String
  pub proposal_type : ProposalType
  pub intent : String
  pub candidate_actions : List (ActionProposal V)
  pub candidate_strategy : String
  pub required_capabilities : List String
  pub required_permissions : List String
  pub expected_outcomes : List String
  pub verification_requirements : List String
  pub risk_assessment : RiskLevel
  pub confidence : ℕ
  pub assumptions : List String

pub record ActionRequest (V : Type 0) : Type 0 where
  pub action_id : String
  pub task_id : String
  pub agent_id : String
  pub tool_id : String
  pub arguments : Dict V
  pub preconditions : Dict V
  pub expected_effects : Dict V
  pub verification : List String
  pub risk_level : RiskLevel
  pub idempotency : String
  pub timeout : Option ℕ
  pub permission : String

unfoldable pub to_computer_action : {V : Type 0} → ℕ → String → ActionRequest V → ComputerAction V
to_computer_action now reason request = record {
  action_type = request.tool_id;
  arguments = request.arguments;
  agent_id = request.agent_id;
  task_id = request.task_id;
  reason = reason;
  permission = request.permission;
  expected_state = request.expected_effects;
  action_id = request.action_id;
  timestamp = now;
}

-- `contract.idempotency.value if contract else "unknown"`
abbrev idempotency_of : {V : Type 0} → Option (ActionContract V) → String
idempotency_of none = "unknown"
idempotency_of (some contract) = elim contract.idempotency [
  | Idempotency.safe_to_retry ↦ "safe_to_retry"
  | Idempotency.conditionally_retryable ↦ "conditionally_retryable"
  | Idempotency.not_safe_to_retry ↦ "not_safe_to_retry"
]

abbrev preconditions_of : {V : Type 0} → Option (ActionContract V) → Dict V
preconditions_of none = []
preconditions_of (some contract) = contract.preconditions

abbrev timeout_of : {V : Type 0} → Option (ActionContract V) → Option ℕ
timeout_of none = none
timeout_of (some contract) = contract.timeout_seconds

abbrev pub contract_fits : {V : Type 0} → Option (ActionContract V) → String → Bool
contract_fits none tool_id = true
contract_fits (some contract) tool_id = contract.tool == tool_id

abbrev the_only : List String → String
the_only [] = ""
the_only (x ∷ xs) = x

-- `agent.current_task_id is not None and agent.current_task_id != task_id` is false
abbrev pub owns_task : Option String → String → Bool
owns_task current task_id = is_none current || is_task current task_id

abbrev pub is_action : ProposalType → Bool
is_action ProposalType.action = true
is_action t = false

module _ {V : Type 0} (is_blank : String → Bool) (contracts : Dict (ActionContract V)) where
  -- The checks of `validate_action` for a registered tool, and the request that it makes.
  unfoldable pub check_tool :
      (new_id agent_id task_id : String) (proposal : ActionProposal V) (verification : List String)
      (agent : Agent) (tool : ToolSpec)
      → Result (ActionRequest V)
  check_tool new_id agent_id task_id proposal verification agent tool =
      let contract = get proposal.action_type contracts in
      if not (contains proposal.action_type agent.available_tools)
      then raise (proposal_rejected "Proposed tool is not granted to agent")
      else if not (is_empty (difference (keys proposal.arguments) tool.input_schema))
      then raise (proposal_rejected "Proposal contains arguments outside the tool schema")
      else if not (is_empty (difference tool.input_schema (keys proposal.arguments)))
      then raise (proposal_rejected "Proposal omits required tool arguments")
      else if not (subset tool.required_permissions agent.permissions)
      then raise (proposal_rejected "Agent lacks required tool permissions")
      else if not (nat_eq (length tool.required_permissions) 1)
      then raise (proposal_rejected "Runtime computer action must have exactly one permission")
      else if not (contract_fits contract proposal.action_type)
      then raise (proposal_rejected "Action contract does not match tool")
      else ok (record {
        action_id = new_id;
        task_id = task_id;
        agent_id = agent_id;
        tool_id = proposal.action_type;
        arguments = proposal.arguments;
        preconditions = preconditions_of contract;
        expected_effects = proposal.expected_state;
        verification = verification;
        risk_level = tool.risk;
        idempotency = idempotency_of contract;
        timeout = timeout_of contract;
        permission = the_only tool.required_permissions;
      })

  abbrev pub check_agent :
      (new_id agent_id task_id : String) (proposal : ActionProposal V) (verification : List String)
      → Option ToolSpec
      → Result Agent
      → Result (ActionRequest V)
  check_agent new_id agent_id task_id proposal verification tool (raise e) = raise e
  check_agent new_id agent_id task_id proposal verification none (ok agent) =
      if owns_task agent.current_task_id task_id
      then raise (proposal_rejected "Proposed tool is not registered")
      else raise (proposal_rejected "Agent does not own the proposed task")
  check_agent new_id agent_id task_id proposal verification (some tool) (ok agent) =
      if owns_task agent.current_task_id task_id
      then check_tool new_id agent_id task_id proposal verification agent tool
      else raise (proposal_rejected "Agent does not own the proposed task")

  unfoldable pub validate_action :
      (new_id agent_id task_id : String) (proposal : ActionProposal V) (verification : List String)
      → Manager
      → Result (ActionRequest V)
  unfolding check_tool
  validate_action new_id agent_id task_id proposal verification m =
      if is_blank proposal.reason
      then raise (proposal_rejected "Action proposal requires reason and expected state")
      else check_agent new_id agent_id task_id proposal verification
          (get proposal.action_type m.tools) (get_agent agent_id m).0

  -- The comprehension at the end of `validate`, with identifiers numbered from `n`.
  unfoldable pub validate_all :
      (new_id : ℕ → String) (agent_id task_id : String) (verification : List String)
      → ℕ
      → List (ActionProposal V)
      → Manager
      → Result (List (ActionRequest V))
  unfolding validate_action
  validate_all new_id agent_id task_id verification n [] m = ok []
  validate_all new_id agent_id task_id verification n (p ∷ ps) m =
      elim (validate_action (new_id n) agent_id task_id p verification m) [
        | raise e ↦ raise e
        | ok request ↦ elim (validate_all new_id agent_id task_id verification (suc n) ps m) [
          | raise e ↦ raise e
          | ok requests ↦ ok (request ∷ requests)
        ]
      ]

  abbrev pub with_agent :
      (new_id : ℕ → String) (agent_id : String) (proposal : ReasoningProposal V)
      → Manager
      → Result Agent
      → Result (List (ActionRequest V))
  with_agent new_id agent_id proposal m (raise e) = raise e
  with_agent new_id agent_id proposal m (ok agent) =
      if subset proposal.required_permissions agent.permissions
      then validate_all new_id agent_id proposal.task_id proposal.verification_requirements 0
          proposal.candidate_actions m
      else raise (proposal_rejected "Proposal requests permissions the agent lacks")

  unfoldable pub validate :
      (new_id : ℕ → String) (agent_id : String) (proposal : ReasoningProposal V)
      → Manager
      → Result (List (ActionRequest V))
  unfolding validate_all
  validate new_id agent_id proposal m =
      if (proposal.proposal_id == "") || (proposal.goal_id == "")
      then raise (proposal_rejected "Malformed reasoning proposal")
      else if not (leb proposal.confidence 1000000)
      then raise (proposal_rejected "Proposal confidence must be between zero and one")
      else if is_action proposal.proposal_type && is_empty proposal.candidate_actions
      then raise (proposal_rejected "Action proposal has no candidate actions")
      else if not (is_action proposal.proposal_type) && not (is_empty proposal.candidate_actions)
      then raise (proposal_rejected "Non-action proposal cannot contain executable candidates")
      else with_agent new_id agent_id proposal m (get_agent agent_id m).0
