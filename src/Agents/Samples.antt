-- ===== src/Agents/Samples.antt =====
-- A small team, and the theorems on the manager at it.
use brainless_agent.Common.{
  pure, ℕ, ◌+◌, String, true, false, none, some, ◌≡◌, refl, sym, ◌⊎◌, [], ◌∷◌, arith, Result, ok,
  raise, Error, contains, any, subset,
}
use brainless_agent.Common.Dict.{Dict, get, put, values}
use brainless_agent.Safety.Permissions.{PermissionPolicy, mode_of}
use brainless_agent.Agents.Models.{Agent, AgentStatus, AgentStatus-discrete}
use brainless_agent.Agents.Tools.{ToolSpec, RiskLevel, ToolRegistry}
use brainless_agent.Agents.Tools
use brainless_agent.Agents.Manager.{
  Manager, new_manager, new_agent, failed, create_root, create_agent, lease_permission,
  grant_permission, log_event, settle, begin_run, begin_retry, execute_tool,
}
use brainless_agent.Agents.History.{Step, Reach, here, next}
use brainless_agent.Agents.Authority.Confined.{IsConfined}
use brainless_agent.Agents.Authority.Confinement.{Reach-IsConfined}
use brainless_agent.Agents.Mediation.Guards.{Authorized}
use brainless_agent.Agents.Mediation.Denied.{execute_tool-denied, execute_tool-runs, Entitled}
use brainless_agent.Agents.Termination.Status.{IsTerminated}
use brainless_agent.Agents.Termination.Final.{Step-IsTerminated}
use brainless_agent.Agents.Termination.Revival.{failed_revives}

abbrev screenshot : ToolSpec
screenshot = record {
  tool_id = "screenshot";
  name = "Screenshot";
  description = "Take a picture of the screen";
  required_permissions = "screen.read" ∷ [];
  risk = RiskLevel.low;
  input_schema = [];
  output_schema = "object";
  category = "screen";
  supported_platforms = "linux" ∷ [];
  reversible = true;
  destructive = false;
}

abbrev tools : ToolRegistry
tools = ("screenshot", screenshot) ∷ []

abbrev policy : PermissionPolicy
policy = record { modes = []; approved = [] }

abbrev start : Manager
start = new_manager tools policy 2 (some [])

abbrev root : Agent
root = new_agent 0 "root" "Root" "lead" "all" ("screen.read" ∷ [])

abbrev worker : Agent
worker =
    let agent = new_agent 1 "worker" "Worker" "look" "screen" ("screen.read" ∷ []) in
    record agent {
      parent_agent_id = some "root";
      available_tools = "screenshot" ∷ [];
      status = AgentStatus.running;
    }

abbrev team : Agent → Manager
team child = record start { agents = ("root", root) ∷ ("worker", child) ∷ [] }

abbrev stopped : Agent
stopped = record worker { status = AgentStatus.terminated }

-- The world counts the pictures taken.
abbrev take : String → Dict String → ℕ → Result String × ℕ
take tool_id arguments taken = (ok "a picture", taken + 1)

abbrev text_of : Error → String
text_of e = "an error"

abbrev founded : Manager
founded = (create_root 0 "root" "Root" "lead" "all" ("screen.read" ∷ []) start).1

abbrev joined : Manager
joined =
    (create_agent 1 "worker" "task" "root" "Worker" "look" "screen" none ("screen.read" ∷ [])
      ("screenshot" ∷ []) [] none founded).1

abbrev lent : Manager
lent = (lease_permission (λ t. "later") 2 "l1" "root" "worker" "screen.read" "task" 60 joined).1

abbrev head : Agent
head = new_agent 0 "root" "Root" "lead" "all" ("screen.read" ∷ [])

founded-history : Reach String start founded
unfolding get
founded-history = next here (Step.root 0 "root" "Root" "lead" "all" ("screen.read" ∷ []) refl)

founded-head : get "root" founded.agents ≡ some head
unfolding create_root get any values put log_event pure
founded-head = refl

lent-history : Reach String founded lent
unfolding create_root get any values put log_event pure
lent-history =
    next
      (next here (
        Step.child 1 "worker" "task" "root" "Worker" "look" "screen" none ("screen.read" ∷ [])
          ("screenshot" ∷ []) [] none refl))
      (Step.lease (λ t. "later") 2 "l1" "root" "worker" "screen.read" "task" 60)

Reach-IsConfined_example : IsConfined (some ("root", "screen.read" ∷ [])) lent
Reach-IsConfined_example =
    Reach-IsConfined String tools policy 2 (some []) "root" head founded-history founded-head refl
      lent-history

unknown-not-Authorized : ¬ (Authorized 5 (team worker) "stranger" "screenshot")
unfolding get
unknown-not-Authorized a = no (sym a.found)
  where
    no : some a.agent ≡ none → ⊥
    no e = cc

execute_tool-denied_example :
    let outcome = execute_tool take text_of 5 "stranger" "screenshot" [] (team worker, 0) in
    (outcome.1.1 ≡ 0) × ((e : Error) × (outcome.0 ≡ raise e))
execute_tool-denied_example =
    execute_tool-denied take text_of 5 "stranger" "screenshot" [] (team worker) 0
      unknown-not-Authorized

worker-Entitled : Entitled (team worker) "worker" "screenshot"
unfolding get subset contains mode_of AgentStatus-discrete
worker-Entitled = record {
  agent = worker;
  found = refl;
  runs = refl;
  granted = refl;
  tool = screenshot;
  registered = refl;
  held = refl;
  approved = (refl, tt);
}

execute_tool-runs_example :
    let outcome = execute_tool take text_of 5 "worker" "screenshot" [] (team worker, 0) in
    (outcome.1.1 ≡ (Tools.invoke take tools "screenshot" [] 0).1)
    × (outcome.0 ≡ (Tools.invoke take tools "screenshot" [] 0).0)
execute_tool-runs_example =
    execute_tool-runs take text_of 5 "worker" "screenshot" [] (team worker) 0 worker-Entitled

stopped-IsTerminated : IsTerminated "worker" (team stopped)
unfolding get
stopped-IsTerminated = record { agent = stopped; found = refl; is = refl }

Step-IsTerminated_example :
    IsTerminated "worker" (grant_permission 9 "root" "worker" "screen.read" (team stopped)).1
    ⊎ ((now : ℕ) × (error : String) × ((grant_permission 9 "root" "worker" "screen.read"
            (team stopped)).1
          ≡ (settle now "worker" (failed error) (team stopped)).1))
Step-IsTerminated_example =
    Step-IsTerminated {V = String} "worker" (Step.grant 9 "root" "worker" "screen.read")
      stopped-IsTerminated

failed_revives_example :
    let failed_run = (settle 7 "worker" (failed "late") (team stopped)).1 in
    let again = (begin_run 9 "root" "worker" (begin_retry "root" "worker" failed_run).1) in
    (again.0 ≡ ok tt)
    × ((b : Agent) × (get "worker" again.1.agents ≡ some b) × (b.status ≡ AgentStatus.running))
unfolding get
failed_revives_example =
    failed_revives 7 9 "root" "worker" "late" (team stopped) root stopped refl refl refl refl refl
      (omega arith)
