-- ===== src/Autonomy/Samples.antt =====
-- A mission with three tasks, and the theorems on its gates at it.
use brainless_agent.Common.{
  String, true, false, none, ◌≡◌, ◌≢◌, ◌↔◌, refl, ◌⊎◌, inl, List, [], ◌∷◌, arith, ◌≤◌, ok, All,
  length, disjoint, contains, pure, difference, subset, keep, all, pos,
}
use brainless_agent.Common.Dict.{get, put, modify, keys, values}
use brainless_agent.Agents.Tools.{ToolSpec, RiskLevel}
use brainless_agent.Autonomy.Actions.{ComputerAction}
use brainless_agent.Autonomy.Governor.{
  MissionContract, BudgetUsage, AutonomyGovernor, GovernorOutcome, GovernorDecision, new_governor,
  evaluate, record_result, register, bind_tasks, is_high,
}
use brainless_agent.Autonomy.Governor.Bound.{Step, here, next, now, more, Reach-answers}
use brainless_agent.Autonomy.Governor.Budget.{Within, evaluate-authority, exhausted_stays}
use brainless_agent.Autonomy.TaskGraph.{
  GraphTask, GraphTaskStatus, TaskGraph, validate, runnable, check_known, visit_all, visit,
  is_runnable,
}
use brainless_agent.Autonomy.TaskGraph.Acyclic.{AllKnown, IsAcyclic, validate-decides}
use brainless_agent.Autonomy.Scheduler.{next_tasks, select, sort_tasks, insert_task, before}
use brainless_agent.Autonomy.Scheduler.Choice.{
  Apart, Among, taken, next_tasks-safe, next_tasks-maximal,
}

abbrev pub click : ToolSpec
click = record {
  tool_id = "mouse.click";
  name = "mouse.click";
  description = "Runtime-controlled computer action";
  required_permissions = "mouse.click" ∷ [];
  risk = RiskLevel.high;
  input_schema = "x" ∷ "y" ∷ [];
  output_schema = "object";
  category = "computer";
  supported_platforms = "linux" ∷ [];
  reversible = true;
  destructive = false;
}

abbrev pub click_action : ComputerAction String
click_action = record {
  action_type = "mouse.click";
  arguments = ("x", "1") ∷ ("y", "2") ∷ [];
  agent_id = "worker";
  task_id = "t1";
  reason = "press the button";
  permission = "mouse.click";
  expected_state = [];
  action_id = "a1";
  timestamp = 0;
}

abbrev contract : MissionContract
contract = record {
  mission_id = "m";
  allowed_tools = "mouse.click" ∷ [];
  allowed_permissions = [];
  forbidden_actions = "process.execute" ∷ [];
  max_actions = 1;
  max_failures = 1;
  minimum_confidence = 500000;
}

abbrev enrolled : AutonomyGovernor
enrolled = (register contract ("t1" ∷ []) new_governor).1

abbrev spent : AutonomyGovernor
spent = (record_result "t1" true enrolled).1

Reach-answers_example :
    ((o : GovernorOutcome) × (evaluate click_action click 1000000 spent ≡ ok o))
    × ((record_result "t1" false spent).0 ≡ ok tt)
Reach-answers_example =
    Reach-answers (next (next here (Step.registers contract ("t1" ∷ []))) (Step.records "t1" true))
      click_action click 1000000 false

abbrev fresh : BudgetUsage
fresh = record { actions = 0; failures = 0 }

abbrev used_up : BudgetUsage
used_up = record { actions = 1; failures = 0 }

evaluate-authority_example :
    (o : GovernorOutcome) × (evaluate click_action click 1000000 enrolled ≡ ok o)
    × ((o.decision ≢ GovernorDecision.deny) ↔ Within click_action contract fresh)
    × ((o.decision ≡ GovernorDecision.allow) ↔ (
        Within click_action contract fresh
        × (500000 ≤ 1000000)
        × (is_high RiskLevel.high ≡ false)
        × (false ≡ false)))
unfolding register bind_tasks get put pure
evaluate-authority_example =
    evaluate-authority click_action click 1000000 enrolled "m" contract fresh refl refl refl

exhausted_stays_example :
    (o : GovernorOutcome) × (evaluate click_action click 1000000
        (register contract ("t1" ∷ []) spent).1
      ≡ ok o)
    × (o.decision ≡ GovernorDecision.deny)
unfolding register record_result bind_tasks get put modify pure
exhausted_stays_example =
    exhausted_stays {g = spent} "m" contract contract used_up click_action click 1000000 refl
      (inl (omega arith)) (more now (Step.registers contract ("t1" ∷ []))) refl refl refl refl

abbrev job : String → List String → List String → GraphTaskStatus → GraphTask
job task_id dependencies resources status = record {
  task_id = task_id;
  objective = "do it";
  dependencies = dependencies;
  capabilities = [];
  permissions = [];
  resources = resources;
  tool = none;
  priority = pos 0;
  deadline = none;
  high_risk = false;
  requires_approval = false;
  status = status;
  retries = 0;
  max_retries = 1;
  error = none;
}

-- Two tasks that can start, with one browser for both, and one that waits for the first.
abbrev plan : TaskGraph
plan =
    ("a", job "a" [] ("browser" ∷ []) GraphTaskStatus.pending)
    ∷ ("b", job "b" [] ("browser" ∷ []) GraphTaskStatus.pending)
    ∷ ("c", job "c" ("a" ∷ []) [] GraphTaskStatus.pending)
    ∷ []

validate-decides_example : (validate plan ≡ ok tt) ↔ (AllKnown plan × IsAcyclic plan)
validate-decides_example = validate-decides plan

abbrev chosen : List GraphTask
chosen = job "a" [] ("browser" ∷ []) GraphTaskStatus.pending ∷ []

next_tasks-plan : next_tasks plan [] 2 ≡ ok chosen
unfolding next_tasks validate check_known visit_all visit get values keys difference subset contains
    select sort_tasks insert_task before runnable keep all disjoint
next_tasks-plan = refl

next_tasks-safe_example :
    All (λ t. is_runnable plan t ≡ true) chosen × Apart [] chosen × (length chosen ≤ 2)
next_tasks-safe_example = next_tasks-safe plan [] 2 chosen (omega arith) next_tasks-plan

next_tasks-maximal_example :
    (length chosen ≡ 2)
    ⊎ All (λ t. Among t chosen ⊎ (disjoint t.resources (taken [] chosen) ≡ false)) (runnable plan)
next_tasks-maximal_example = next_tasks-maximal plan [] 2 chosen next_tasks-plan
