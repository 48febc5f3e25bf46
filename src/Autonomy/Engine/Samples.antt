-- ===== src/Autonomy/Engine/Samples.antt =====
-- A goal of two tasks, and the end of its run.
use brainless_agent.Common.{
  ℕ, String, true, false, none, is_some, ◌≡◌, refl, List, [], ◌∷◌, ok, arith, pos,
}
use brainless_agent.Common.Dict.{get}
use brainless_agent.Autonomy.TaskGraph.{GraphTask, GraphTaskStatus, TaskGraph}
use brainless_agent.Autonomy.Engine.{EngineWorld, run_graph}
use brainless_agent.Autonomy.Engine.Budget.{total}
use brainless_agent.Autonomy.Engine.Keyed.{IsKeyed}
use brainless_agent.Autonomy.Engine.Termination.{run_graph-ends}

abbrev task : String → List String → GraphTask
task task_id dependencies = record {
  task_id = task_id;
  objective = "do it";
  dependencies = dependencies;
  capabilities = [];
  permissions = [];
  resources = [];
  tool = none;
  priority = pos 0;
  deadline = none;
  high_risk = false;
  requires_approval = false;
  status = GraphTaskStatus.pending;
  retries = 0;
  max_retries = 1;
  error = none;
}

abbrev goal : TaskGraph
goal = ("a", task "a" []) ∷ ("b", task "b" ("a" ∷ [])) ∷ []

abbrev workers : EngineWorld ℕ
workers = record {
  execute = λ t w. (ok tt, w);
  held = λ w. [];
  criteria = (λ w. (ok (true, ""), w)) ∷ [];
  str = λ e. "error";
  max_parallel = 4;
}

goal-IsKeyed : IsKeyed goal
unfolding get
goal-IsKeyed = (refl, refl, (refl, refl, tt))

run_graph-ends_example : is_some (run_graph workers 9 "t" goal 0) ≡ true
unfolding total
run_graph-ends_example = run_graph-ends workers 9 "t" goal 0 goal-IsKeyed (omega arith)
