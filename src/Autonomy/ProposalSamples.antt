-- ===== src/Autonomy/ProposalSamples.antt =====
-- A proposed click and an agent for it, and the theorems on proposals and the registry at them.
use brainless_agent.Common.{
  String, Bool, true, ◌≡◌, ◌==◌, none, some, refl, All, [], ◌∷◌, ok, pure, contains, subset,
  difference,
}
use brainless_agent.Common.Dict.{get, keys, values}
use brainless_agent.Agents.Models.{Agent}
use brainless_agent.Agents.Tools.{ToolSpec, RiskLevel}
use brainless_agent.Agents.Manager.{Manager, new_manager, new_agent, get_agent}
use brainless_agent.Autonomy.Proposals.{
  ActionProposal, ActionRequest, validate_action, check_tool, owns_task,
}
use brainless_agent.Autonomy.Proposals.Authority.{Lawful, validate_action-Lawful}
use brainless_agent.Autonomy.Registry.{AgentRegistry, TaskRequirements, find}
use brainless_agent.Autonomy.Registry.Finding.{Suits, find-fits}
use brainless_agent.Autonomy.Samples.{click}

abbrev clicker : Agent
clicker =
    let agent = new_agent 1 "worker" "Worker" "click" "buttons" ("mouse.click" ∷ []) in
    record agent { available_tools = "mouse.click" ∷ []; current_task_id = some "t1" }

abbrev desk : Manager
desk =
    let start =
      new_manager (("mouse.click", click) ∷ []) (record { modes = []; approved = [] }) 1 none in
    record start { agents = ("worker", clicker) ∷ [] }

abbrev wish : ActionProposal String
wish = record {
  action_type = "mouse.click";
  arguments = ("x", "1") ∷ ("y", "2") ∷ [];
  reason = "press the button";
  expected_state = [];
}

abbrev is_empty_text : String → Bool
is_empty_text text = text == ""

abbrev wanted : ActionRequest String
wanted = record {
  action_id = "a1";
  task_id = "t1";
  agent_id = "worker";
  tool_id = "mouse.click";
  arguments = ("x", "1") ∷ ("y", "2") ∷ [];
  preconditions = [];
  expected_effects = [];
  verification = [];
  risk_level = RiskLevel.high;
  idempotency = "unknown";
  timeout = none;
  permission = "mouse.click";
}

wish-passes : validate_action is_empty_text [] "a1" "worker" "t1" wish [] desk ≡ ok wanted
unfolding validate_action check_tool get_agent get keys pure contains subset difference
wish-passes = refl

validate_action-Lawful_example :
    (agent : Agent) × (tool : ToolSpec) × (get "worker" desk.agents ≡ some agent)
    × (owns_task agent.current_task_id "t1" ≡ true)
    × (get "mouse.click" desk.tools ≡ some tool)
    × Lawful "worker" "t1" wanted agent tool
validate_action-Lawful_example =
    validate_action-Lawful is_empty_text [] "a1" "worker" "t1" wish [] desk wanted wish-passes

abbrev needs : TaskRequirements
needs = record {
  capabilities = "computer.click" ∷ [];
  permissions = "mouse.click" ∷ [];
  tools = [];
  role = "clicker";
}

abbrev staff : AgentRegistry
staff = record {
  agents = ("worker", clicker) ∷ [];
  capabilities = ("worker", "computer.click" ∷ []) ∷ [];
  metrics = [];
}

find-fits_example :
    ((a : Agent) → find needs staff ≡ some a → Suits needs staff a)
    × (find needs staff ≡ none → All (λ a. ¬ (Suits needs staff a)) (values staff.agents))
find-fits_example = find-fits needs staff
