-- ===== src/Autonomy/Engine/Termination.antt =====
-- The loop of `run_graph` ends.
use brainless_agent.Common.{
  ℕ, zero, suc, ◌≤◌, ◌<◌, String, Bool, true, false, Option, none, some, is_some, ◌≡◌, refl, sym,
  ◌∙◌, subst, List, [], ◌∷◌, arith, ◌==◌, Bool-cases, inl, inr, if◌then◌else◌, Result, ok, raise,
  All, All-map, keep, and_left, some-injective,
}
use brainless_agent.Common.Dict.{get, modify, values, get-modify}
use brainless_agent.Autonomy.TaskGraph.{
  GraphTask, GraphTaskStatus, TaskGraph, set_status, is_pending, is_runnable, runnable, validate,
}
use brainless_agent.Autonomy.Scheduler.{next_tasks}
use brainless_agent.Autonomy.Scheduler.Choice.{next_tasks-All}
use brainless_agent.Autonomy.Engine.{
  EngineWorld, Rounds, mark_running, execute_all, one_round, after_choice, run_rounds, run_graph,
  start_rounds, after_rounds, parallel_limit,
}
use brainless_agent.Autonomy.Engine.Budget.{
  weight, phase, total, total-modify, total-modify_lt, total-settle_all,
}
use brainless_agent.Autonomy.Engine.Keyed.{
  IsKeyed, values-found, settle_all-IsKeyed, mark_running-IsKeyed,
}

-- The task of this name in the graph is pending or running.
record Active (g : TaskGraph) (t : GraphTask) : Type 0 where
  task : GraphTask
  found : get t.task_id g ≡ some task
  at_work : 1 ≤ phase task.status

run_one : String → TaskGraph → TaskGraph
run_one k g = modify k (set_status GraphTaskStatus.running) g

run_one-Active : (k : String) (g : TaskGraph) (t : GraphTask) → Active g t → Active (run_one k g) t
unfolding run_one
run_one-Active k g t a = elim (Bool-cases (k == t.task_id)) [
  | inl same ↦ record {
    task = set_status GraphTaskStatus.running a.task;
    found =
        get-modify k t.task_id (set_status GraphTaskStatus.running) g
        ∙ ground (arith, same, a.found);
    at_work = omega arith;
  }
  | inr other ↦ record {
    task = a.task;
    found =
        get-modify k t.task_id (set_status GraphTaskStatus.running) g
        ∙ ground (arith, other, a.found);
    at_work = a.at_work;
  }
]

weight-running :
    (t : GraphTask) → 1 ≤ phase t.status → weight (set_status GraphTaskStatus.running t) ≤ weight t
weight-running t le = omega (arith, le)

total-mark_running :
    (ts : List GraphTask) (g : TaskGraph) → All (Active g) ts → total (mark_running ts g) ≤ total g
unfolding mark_running run_one
total-mark_running [] g acts = omega arith
total-mark_running (t ∷ ts) g acts =
    let a = acts.0 in
    let first : total (run_one t.task_id g) ≤ total g =
      total-modify t.task_id (set_status GraphTaskStatus.running) g (λ u e. weight-running u (
        subst (λ (x : GraphTask). 1 ≤ phase x.status) (some-injective (sym a.found ∙ e))
          a.at_work)) in
    let rest =
      total-mark_running ts (run_one t.task_id g)
        (All-map (run_one-Active t.task_id g) ts acts.1) in
    omega (arith, first, rest)

-- A pending task in the graph
record Ready (g : TaskGraph) (t : GraphTask) : Type 0 where
  found : get t.task_id g ≡ some t
  waits : is_pending t.status ≡ true

phase-pending : (s : GraphTaskStatus) → is_pending s ≡ true → phase s ≡ 2
phase-pending GraphTaskStatus.pending e = refl
phase-pending GraphTaskStatus.running e = cc
phase-pending GraphTaskStatus.completed e = cc
phase-pending GraphTaskStatus.failed e = cc
phase-pending GraphTaskStatus.blocked e = cc
phase-pending GraphTaskStatus.paused e = cc
phase-pending GraphTaskStatus.cancelled e = cc

Ready-Active : (g : TaskGraph) (t : GraphTask) → Ready g t → Active g t
Ready-Active g t r = record {
  task = t;
  found = r.found;
  at_work = omega (arith, phase-pending t.status r.waits);
}

total-mark_running_lt :
    (t : GraphTask) (ts : List GraphTask) (g : TaskGraph)
    → Ready g t
    → All (Ready g) ts
    → total (mark_running (t ∷ ts) g) < total g
unfolding mark_running run_one
total-mark_running_lt t ts g r rs =
    let first : total (run_one t.task_id g) < total g =
      total-modify_lt t.task_id (set_status GraphTaskStatus.running) g t r.found
        (omega (arith, phase-pending t.status r.waits)) in
    let rest =
      total-mark_running ts (run_one t.task_id g)
        (All-map (λ u x. run_one-Active t.task_id g u (Ready-Active g u x)) ts rs) in
    omega (arith, first, rest)

runnable-Ready :
    (g : TaskGraph) (ts : List GraphTask)
    → All (λ t. get t.task_id g ≡ some t) ts
    → All (Ready g) (keep (is_runnable g) ts)
unfolding keep
runnable-Ready g [] fs = tt
runnable-Ready g (t ∷ ts) fs = go (is_runnable g t) refl (runnable-Ready g ts fs.1)
  where
    go :
        (b : Bool)
        → is_runnable g t ≡ b
        → All (Ready g) (keep (is_runnable g) ts)
        → All (Ready g) (if b then t ∷ keep (is_runnable g) ts else keep (is_runnable g) ts)
    go true e rest = (record { found = fs.0; waits = and_left (is_pending t.status) _ e }, rest)
    go false e rest = rest

module _ {W : Type 0} (env : EngineWorld W) where
  -- A round for at least one ready task leaves less to do.
  one_round-less :
      (t : GraphTask) (ts : List GraphTask) (r : Rounds env)
      → All (Ready r.tasks) (t ∷ ts)
      → total (one_round env (t ∷ ts) r).tasks < total r.tasks
  unfolding one_round
  one_round-less t ts r rs =
      let outcomes = (execute_all env (t ∷ ts) r.outside).0 in
      omega (
        arith,
        total-settle_all env outcomes r.done (mark_running (t ∷ ts) r.tasks),
        total-mark_running_lt t ts r.tasks rs.0 rs.1,
      )

  one_round-IsKeyed :
      (ready : List GraphTask) (r : Rounds env)
      → IsKeyed r.tasks
      → IsKeyed (one_round env ready r).tasks
  unfolding one_round
  one_round-IsKeyed ready r h =
      settle_all-IsKeyed env (execute_all env ready r.outside).0 r.done (mark_running ready r.tasks)
        (mark_running-IsKeyed ready r.tasks h)

  chosen-Ready :
      (g : TaskGraph) (held : List String) (limit : ℕ) (picked : List GraphTask)
      → IsKeyed g
      → next_tasks g held limit ≡ ok picked
      → All (Ready g) picked
  unfolding runnable keep
  chosen-Ready g held limit picked h e =
      next_tasks-All (Ready g) g held limit picked (runnable-Ready g (values g) (values-found g h))
        e

  run_rounds-ends :
      (fuel : ℕ) (r : Rounds env)
      → IsKeyed r.tasks
      → total r.tasks < fuel
      → is_some (run_rounds env fuel r) ≡ true
  unfolding run_rounds
  run_rounds-ends zero r h lt = absurd (omega (arith, lt))
  run_rounds-ends (suc fuel) r h lt =
      go (next_tasks r.tasks (env.held r.outside) (parallel_limit env.max_parallel)) refl
        (run_rounds-ends fuel)
    where
      go :
          (o : Result (List GraphTask))
          → next_tasks r.tasks (env.held r.outside) (parallel_limit env.max_parallel) ≡ o
          → ((s : Rounds env)
              → IsKeyed s.tasks
              → total s.tasks < fuel
              → is_some (run_rounds env fuel s) ≡ true)
          → is_some (after_choice env (run_rounds env fuel) o r) ≡ true
      go (raise x) e ends = refl
      go (ok []) e ends = refl
      go (ok (t ∷ ts)) e ends = ends (one_round env (t ∷ ts) r) (one_round-IsKeyed (t ∷ ts) r h) (
          omega (
            arith,
            lt,
            one_round-less t ts r (
                chosen-Ready r.tasks (env.held r.outside) (parallel_limit env.max_parallel) (t ∷ ts)
                  h e),
          ))

  -- `run_graph` ends, whatever the tasks, the locks and the criteria do: on a graph whose tasks stand
  -- under their own identifiers, fuel above `total`, which is two for each retry that is left, two
  -- for each pending task and one for each running one, is not used up.
  pub run_graph-ends :
      (fuel : ℕ) (task_id : String) (tasks : TaskGraph) (outside : W)
      → IsKeyed tasks
      → total tasks < fuel
      → is_some (run_graph env fuel task_id tasks outside) ≡ true
  unfolding run_graph
  run_graph-ends fuel task_id tasks outside h lt =
      go (validate tasks) (run_rounds-ends fuel start h lt)
    where
      start : Rounds env
      start = record { tasks = tasks; done = []; outside = outside }

      ended :
          (o : Option (Result (Rounds env)))
          → is_some o ≡ true
          → is_some (after_rounds env task_id o) ≡ true
      ended none e = e
      ended (some (raise x)) e = refl
      ended (some (ok r)) e = refl

      go :
          (v : Result (Unit {0}))
          → is_some (run_rounds env fuel start) ≡ true
          → is_some (start_rounds env fuel task_id v start) ≡ true
      go (raise x) e = refl
      go (ok u) e = ended (run_rounds env fuel start) e
