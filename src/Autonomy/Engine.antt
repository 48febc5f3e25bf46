-- ===== src/Autonomy/Engine.antt =====
-- `run_graph` of app/autonomy/task_engine.py: the rounds in which the tasks of a graph are run, and
-- the result of a goal. `W` is the world outside; `execute` is `runtime.execute` for a task, whose
-- calls of one round stand in their order, and `held` the owners of the locks. What is journaled and
-- saved of a round is left to the world.
pub mod Budget
pub mod Keyed
pub mod Termination
mod Samples
use brainless_agent.Common.{
  ℕ, zero, suc, String, Bool, true, false, not, ◌&&◌, Option, none, some, List, [], ◌∷◌, ◌++◌, ltb,
  is_empty, if◌then◌else◌, Result, ok, raise, Error, all, keep,
}
use brainless_agent.Common.Dict.{Dict, get, modify, values}
use brainless_agent.Autonomy.TaskGraph.{
  GraphTask, GraphTaskStatus, TaskGraph, set_status, complete, fail, is_completed, validate,
}
use brainless_agent.Autonomy.Scheduler.{next_tasks}

pub data TaskOutcome : Type 0 where
  completed partially_completed failed blocked cancelled : TaskOutcome

pub record TaskResult : Type 0 where
  pub task_id : String
  pub outcome : TaskOutcome
  pub result : String
  pub verified : Bool
  pub unmet_criteria : List String
  pub completed_tasks : List String
  pub blocked_reason : Option String

-- What the engine is given; a criterion answers whether it is met, with a detail.
pub record EngineWorld (W : Type 0) : Type 0 where
  pub execute : GraphTask → W → Result (Unit {0}) × W
  pub held : W → List String
  pub criteria : List (W → Result (Bool × String) × W)
  pub str : Error → String
  pub max_parallel : ℕ

abbrev pub add_unmet :
    {W : Type 0} → Bool × String → Result (List String) × W → Result (List String) × W
add_unmet (true, detail) rest = rest
add_unmet (false, detail) (ok unmet, world) = (ok (detail ∷ unmet), world)
add_unmet (false, detail) (raise e, world) = (raise e, world)

abbrev pub when_asked :
    {W : Type 0}
    → (W → Result (List String) × W)
    → Result (Bool × String) × W
    → Result (List String) × W
when_asked more (raise e, world) = (raise e, world)
when_asked more (ok answer, world) = add_unmet answer (more world)

-- The loop of `GoalCompletionVerifier.verify`: the details of the criteria that are not met
unfoldable pub unmet_of :
    {W : Type 0} → List (W → Result (Bool × String) × W) → W → Result (List String) × W
unmet_of [] world = (ok [], world)
unmet_of (criterion ∷ rest) world = when_asked (unmet_of rest) (criterion world)

-- `max(1, self.actions.limits.max_parallel_agents)`
abbrev pub parallel_limit : ℕ → ℕ
parallel_limit zero = 1
parallel_limit (suc n) = suc n

-- `node.status = GraphTaskStatus.RUNNING` for each ready task
unfoldable pub mark_running : List GraphTask → TaskGraph → TaskGraph
mark_running [] tasks = tasks
mark_running (t ∷ ts) tasks =
    mark_running ts (modify t.task_id (set_status GraphTaskStatus.running) tasks)

module _ {W : Type 0} (env : EngineWorld W) where
  -- `asyncio.gather` over `execute_node`: the error of each task, if it raised one.
  unfoldable pub execute_all : List GraphTask → W → List (GraphTask × Option Error) × W
  execute_all [] world = ([], world)
  execute_all (t ∷ ts) world =
      let (result, world') = env.execute t world in
      let (rest, world'') = execute_all ts world' in ((t, error_of result) ∷ rest, world'')
    where
      error_of : Result (Unit {0}) → Option Error
      error_of (ok u) = none
      error_of (raise e) = some e

  -- The loop over the outcomes, with `completed`.
  unfoldable pub settle_all :
      List (GraphTask × Option Error) → List String → TaskGraph → List String × TaskGraph
  unfolding complete fail
  settle_all [] done tasks = (done, tasks)
  settle_all ((t, none) ∷ rest) done tasks =
      settle_all rest (done ++ t.task_id ∷ []) (complete t.task_id tasks).1
  settle_all ((t, some e) ∷ rest) done tasks =
      settle_all rest done (fail t.task_id (env.str e) tasks).1

  -- The state of the loop
  pub record Rounds : Type 0 where
    pub tasks : TaskGraph
    pub done : List String
    pub outside : W

  -- One round for the tasks that are ready
  unfoldable pub one_round : List GraphTask → Rounds → Rounds
  unfolding mark_running execute_all settle_all
  one_round ready r =
      let (outcomes, outside) = execute_all ready r.outside in
      let (done, tasks) = settle_all outcomes r.done (mark_running ready r.tasks) in
      record { tasks = tasks; done = done; outside = outside }

  abbrev pub after_choice :
      (Rounds → Option (Result Rounds)) → Result (List GraphTask) → Rounds → Option (Result Rounds)
  after_choice more (raise e) r = some (raise e)
  after_choice more (ok []) r = some (ok r)
  after_choice more (ok (t ∷ ts)) r = more (one_round (t ∷ ts) r)

  -- The `while` loop of `run_graph`; `none` where the fuel is used up.
  unfoldable pub run_rounds : ℕ → Rounds → Option (Result Rounds)
  unfolding one_round next_tasks
  run_rounds zero r = none
  run_rounds (suc fuel) r =
      after_choice (run_rounds fuel)
        (next_tasks r.tasks (env.held r.outside) (parallel_limit env.max_parallel)) r

  abbrev is_blocked : GraphTaskStatus → Bool
  is_blocked GraphTaskStatus.blocked = true
  is_blocked status = false

  abbrev is_failed : GraphTaskStatus → Bool
  is_failed GraphTaskStatus.failed = true
  is_failed status = false

  abbrev first_error : List GraphTask → List GraphTask → Option String
  first_error (t ∷ ts) others = t.error
  first_error [] (t ∷ ts) = t.error
  first_error [] [] = some "Acceptance criteria were not met"

  abbrev outcome_of : (stuck : List GraphTask) (done : List String) → TaskOutcome
  outcome_of (t ∷ ts) done = TaskOutcome.blocked
  outcome_of [] (d ∷ ds) = TaskOutcome.partially_completed
  outcome_of [] [] = TaskOutcome.failed

  -- The end of `run_graph`, by the answer of the verifier.
  unfoldable pub conclude_goal : (task_id : String) → List String → Rounds → TaskResult
  conclude_goal task_id unmet r =
      let nodes = values r.tasks in
      let stuck = keep (λ t. is_blocked t.status) nodes in
      let broken = keep (λ t. is_failed t.status) nodes in
      if is_empty unmet && all nodes (λ t. is_completed t.status)
      then record {
        task_id = task_id;
        outcome = TaskOutcome.completed;
        result = "Goal acceptance criteria verified";
        verified = true;
        unmet_criteria = [];
        completed_tasks = r.done;
        blocked_reason = none;
      }
      else record {
        task_id = task_id;
        outcome = outcome_of stuck r.done;
        result = "Goal was not fully verified";
        verified = false;
        unmet_criteria = unmet;
        completed_tasks = r.done;
        blocked_reason = first_error stuck broken;
      }

  abbrev pub judge_goal : String → Rounds → Result (List String) → Result TaskResult
  judge_goal task_id r (raise e) = raise e
  judge_goal task_id r (ok unmet) = ok (conclude_goal task_id unmet r)

  abbrev pub after_rounds : String → Option (Result Rounds) → Option (Result TaskResult)
  after_rounds task_id none = none
  after_rounds task_id (some (raise e)) = some (raise e)
  after_rounds task_id (some (ok r)) =
      some (judge_goal task_id r (unmet_of env.criteria r.outside).0)

  abbrev pub start_rounds : ℕ → String → Result (Unit {0}) → Rounds → Option (Result TaskResult)
  start_rounds fuel task_id (raise e) r = some (raise e)
  start_rounds fuel task_id (ok u) r = after_rounds task_id (run_rounds fuel r)

  -- `run_graph` without a dry run
  unfoldable pub run_graph : ℕ → String → TaskGraph → W → Option (Result TaskResult)
  unfolding run_rounds conclude_goal validate unmet_of
  run_graph fuel task_id tasks outside =
      start_rounds fuel task_id (validate tasks)
        (record { tasks = tasks; done = []; outside = outside })
