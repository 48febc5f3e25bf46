-- ===== src/Autonomy/Governor.antt =====
-- app/autonomy/governor.py: the last gate of the actions of a mission. A confidence is a number of
-- millionths, so 500000 for 0.5. Budgets are natural numbers: a negative one, which `register`
-- refuses, has no value here. The lock makes each operation one step.
pub mod Bound
pub mod Budget
use brainless_agent.Common.{
  ℕ, ◌+◌, String, concat, Bool, true, false, not, ◌&&◌, ◌||◌, Option, none, some, List, [], ◌∷◌,
  ltb, leb, if◌then◌else◌, Result, ok, raise, Exec, pure, throw, value_error, key_error, contains,
  is_empty, sorted,
}
use brainless_agent.Common.Dict.{Dict, get, put, modify, has}
use brainless_agent.Agents.Tools.{ToolSpec, RiskLevel}
use brainless_agent.Autonomy.Actions.{ComputerAction}

pub data GovernorDecision : Type 0 where
  allow approval deny : GovernorDecision

pub record MissionContract : Type 0 where
  pub mission_id : String
  pub allowed_tools : List String
  pub allowed_permissions : List String
  pub forbidden_actions : List String
  pub max_actions : ℕ
  pub max_failures : ℕ
  pub minimum_confidence : ℕ

pub record BudgetUsage : Type 0 where
  pub actions : ℕ
  pub failures : ℕ

pub record GovernorOutcome : Type 0 where
  pub decision : GovernorDecision
  pub reason : String
  pub mission_id : Option String

pub record AutonomyGovernor : Type 0 where
  pub contracts : Dict MissionContract
  pub tasks : Dict String
  pub usage : Dict BudgetUsage

abbrev pub new_governor : AutonomyGovernor
new_governor = record { contracts = []; tasks = []; usage = [] }

-- 1.0
abbrev pub one : ℕ
one = 1000000

abbrev pub unused : BudgetUsage
unused = record { actions = 0; failures = 0 }

-- `d.setdefault(k, v)`
abbrev pub setdefault : {V : Type 0} → String → V → Dict V → Dict V
setdefault k v d = if has k d then d else put k v d

-- The loop over `task_ids`.
unfoldable pub bind_tasks : String → List String → Dict String → Dict String
bind_tasks mission_id [] tasks = tasks
bind_tasks mission_id (t ∷ ts) tasks = bind_tasks mission_id ts (put t mission_id tasks)

-- The writes of `register`.
abbrev pub enroll : MissionContract → List String → AutonomyGovernor → AutonomyGovernor
enroll contract task_ids g = record {
  contracts = put contract.mission_id contract g.contracts;
  tasks = bind_tasks contract.mission_id task_ids g.tasks;
  usage = setdefault contract.mission_id unused g.usage;
}

unfoldable pub register : MissionContract → List String → Exec AutonomyGovernor Unit
register contract task_ids g =
    if ltb contract.max_actions 1
    then throw (value_error "Mission budgets are invalid") g
    else if not (leb contract.minimum_confidence one)
    then throw (value_error "Mission confidence threshold is invalid") g
    else pure tt (enroll contract task_ids g)

abbrev pub outcome : GovernorDecision → String → Option String → GovernorOutcome
outcome decision reason mission_id = record {
  decision = decision;
  reason = reason;
  mission_id = mission_id;
}

-- `self._contracts[mission_id]` and the like
abbrev pub item : {V : Type 0} → String → Dict V → Result V
item k d = elim (get k d) [ none ↦ raise (key_error k) | some v ↦ ok v ]

abbrev pub is_high : RiskLevel → Bool
is_high RiskLevel.high = true
is_high risk = false

-- The checks of `evaluate` under a contract, in their order.
unfoldable pub judge :
    {V : Type 0} (action : ComputerAction V) (tool : ToolSpec) (confidence : ℕ)
    (mission_id : String) (contract : MissionContract) (usage : BudgetUsage)
    → GovernorOutcome
judge action tool confidence mission_id contract usage =
    let mission = some mission_id in
    if contains action.action_type contract.forbidden_actions
    then outcome GovernorDecision.deny "forbidden_by_mission" mission
    else if not (is_empty contract.allowed_tools)
        && not (contains action.action_type contract.allowed_tools)
    then outcome GovernorDecision.deny "tool_outside_mission" mission
    else if not (is_empty contract.allowed_permissions)
        && not (contains action.permission contract.allowed_permissions)
    then outcome GovernorDecision.deny "permission_outside_mission" mission
    else if leb contract.max_actions usage.actions || leb contract.max_failures usage.failures
    then outcome GovernorDecision.deny "mission_budget_exhausted" mission
    else if ltb confidence contract.minimum_confidence
    then outcome GovernorDecision.approval "confidence_below_contract" mission
    else if is_high tool.risk || tool.destructive
    then outcome GovernorDecision.approval "mission_risk_gate" mission
    else outcome GovernorDecision.allow "mission_contract_allows" mission

abbrev judge_both :
    {V : Type 0}
    → ComputerAction V
    → ToolSpec
    → ℕ
    → String
    → Result MissionContract
    → Result BudgetUsage
    → Result GovernorOutcome
judge_both action tool confidence mission_id (raise e) usage = raise e
judge_both action tool confidence mission_id (ok contract) (raise e) = raise e
judge_both action tool confidence mission_id (ok contract) (ok usage) =
    ok (judge action tool confidence mission_id contract usage)

-- `evaluate`, which only reads.
unfoldable pub evaluate :
    {V : Type 0} → ComputerAction V → ToolSpec → ℕ → AutonomyGovernor → Result GovernorOutcome
evaluate action tool confidence g = elim (get action.task_id g.tasks) [
  | none ↦ ok (outcome GovernorDecision.allow "no_mission_contract" none)
  | some mission_id ↦
      judge_both action tool confidence mission_id (item mission_id g.contracts)
        (item mission_id g.usage)
]

abbrev pub used : Bool → BudgetUsage → BudgetUsage
used success usage = record {
  actions = usage.actions + 1;
  failures = if success then usage.failures else usage.failures + 1;
}

abbrev use_mission : Bool → String → Result BudgetUsage → Exec AutonomyGovernor Unit
use_mission success mission_id (raise e) g = throw e g
use_mission success mission_id (ok usage) g =
    pure tt (record g { usage = modify mission_id (used success) g.usage })

unfoldable pub record_result : String → Bool → Exec AutonomyGovernor Unit
record_result task_id success g = elim (get task_id g.tasks) [
  | none ↦ pure tt g
  | some mission_id ↦ use_mission success mission_id (item mission_id g.usage) g
]

pub record GovernorView : Type 0 where
  pub mission_id : String
  pub allowed_tools : List String
  pub allowed_permissions : List String
  pub forbidden_actions : List String
  pub minimum_confidence : ℕ
  pub actions_used : ℕ
  pub actions_limit : ℕ
  pub failures_used : ℕ
  pub failures_limit : ℕ

abbrev view : String → MissionContract → BudgetUsage → GovernorView
view mission_id contract usage = record {
  mission_id = mission_id;
  allowed_tools = sorted contract.allowed_tools;
  allowed_permissions = sorted contract.allowed_permissions;
  forbidden_actions = sorted contract.forbidden_actions;
  minimum_confidence = contract.minimum_confidence;
  actions_used = usage.actions;
  actions_limit = contract.max_actions;
  failures_used = usage.failures;
  failures_limit = contract.max_failures;
}

abbrev add_view :
    String
    → MissionContract
    → Result BudgetUsage
    → Result (List GovernorView)
    → Result (List GovernorView)
add_view mission_id contract (raise e) views = raise e
add_view mission_id contract (ok usage) (raise e) = raise e
add_view mission_id contract (ok usage) (ok views) = ok (view mission_id contract usage ∷ views)

-- The comprehension of `snapshot` over the entries of `_contracts`.
unfoldable pub snapshot : Dict MissionContract → Dict BudgetUsage → Result (List GovernorView)
snapshot [] usage = ok []
snapshot ((mission_id, contract) ∷ rest) usage =
    add_view mission_id contract (item mission_id usage) (snapshot rest usage)
