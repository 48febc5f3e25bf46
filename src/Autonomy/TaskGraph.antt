-- ===== src/Autonomy/TaskGraph.antt =====
-- app/autonomy/task_graph.py: the graph of a mission's tasks. The entry of a task stands under its
-- `task_id`, so `candidate.task_id` is the key. A deadline is a number of microseconds. The
-- estimated cost, a float that nothing reads, is left out.
pub mod Order
pub mod Acyclic
use brainless_agent.Common.{
  ℕ, ◌+◌, String, concat, Bool, true, false, not, ◌&&◌, ◌||◌, Option, none, some, List, [], ◌∷◌,
  ltb, leb, length, if◌then◌else◌, Result, ok, raise, Exec, pure, throw, value_error, key_error,
  contains, difference, is_empty, sorted, join, add, discard, ◌==◌, any, reads, ◌>>=◌, ◌>>◌,
  require, modify_state, zero, suc, runtime_error, Error, all, keep, ℤ,
}
use brainless_agent.Common.Dict.{Dict, get, put, pop, modify, has, keys, values}

pub data GraphTaskStatus : Type 0 where
  pending running completed failed blocked paused cancelled : GraphTaskStatus

pub record GraphTask : Type 0 where
  pub task_id : String
  pub objective : String
  pub dependencies : List String
  pub capabilities : List String
  pub permissions : List String
  pub resources : List String
  pub tool : Option String
  pub priority : ℤ
  pub deadline : Option ℕ
  pub high_risk : Bool
  pub requires_approval : Bool
  pub status : GraphTaskStatus
  pub retries : ℕ
  pub max_retries : ℕ
  pub error : Option String

abbrev pub TaskGraph : Type 0
TaskGraph = Dict GraphTask

abbrev pub is_pending : GraphTaskStatus → Bool
is_pending GraphTaskStatus.pending = true
is_pending status = false

abbrev pub is_completed : GraphTaskStatus → Bool
is_completed GraphTaskStatus.completed = true
is_completed status = false

abbrev pub is_paused : GraphTaskStatus → Bool
is_paused GraphTaskStatus.paused = true
is_paused status = false

unfoldable pub add_task : GraphTask → Exec TaskGraph Unit
add_task task tasks =
    if has task.task_id tasks
    then throw (value_error (concat "Duplicate task " task.task_id)) tasks
    else if contains task.task_id task.dependencies
    then throw (value_error "Task cannot depend on itself") tasks
    else pure tt (put task.task_id task tasks)

-- The first loop of `validate`; the text of the error is that of `sorted(missing)`.
unfoldable pub check_known : List GraphTask → TaskGraph → Result (Unit {0})
check_known [] tasks = ok tt
check_known (task ∷ rest) tasks =
    let missing = difference task.dependencies (keys tasks) in
    if is_empty missing
    then check_known rest tasks
    else raise (value_error (concat "Unknown dependencies: " (join ", " (sorted missing))))

abbrev dependencies_of : String → TaskGraph → Result (List String)
dependencies_of task_id tasks = elim (get task_id tasks) [
  | none ↦ raise (key_error task_id)
  | some task ↦ ok task.dependencies
]

abbrev cycle : Error
cycle = value_error "Task graph contains a cycle"

-- The loop `for parent in ...: visit(parent)`, with the set `visited` handed on.
unfoldable pub visit_all :
    (List String → String → Result (List String)) → List String → List String → Result (List String)
visit_all go visited [] = ok visited
visit_all go visited (t ∷ ts) = elim (go visited t) [
  | raise e ↦ raise e
  | ok visited' ↦ visit_all go visited' ts
]

abbrev pub leave : String → Result (List String) → Result (List String)
leave task_id (raise e) = raise e
leave task_id (ok visited) = ok (task_id ∷ visited)

abbrev visit_task :
    (List String → String → Result (List String))
    → List String
    → String
    → Result (List String)
    → Result (List String)
visit_task go visited task_id (raise e) = raise e
visit_task go visited task_id (ok parents) = leave task_id (visit_all go visited parents)

-- `visit` with the sets `visiting` and `visited` of `validate`; it returns the new `visited`,
-- newest first, and leaves `visiting` as it was. `fuel` bounds the depth of the recursion.
unfoldable pub visit : ℕ → TaskGraph → List String → List String → String → Result (List String)
unfolding visit_all
visit zero tasks visiting visited task_id = raise (runtime_error "maximum recursion depth exceeded")
visit (suc fuel) tasks visiting visited task_id =
    if contains task_id visiting
    then raise cycle
    else if contains task_id visited
    then ok visited
    else visit_task (visit fuel tasks (task_id ∷ visiting)) visited task_id
        (dependencies_of task_id tasks)

-- One more than the tasks that can be on the way at a time.
abbrev pub depth : TaskGraph → ℕ
depth tasks = suc (length tasks)

abbrev visit_known : TaskGraph → Result (Unit {0}) → Result (List String)
visit_known tasks (raise e) = raise e
visit_known tasks (ok u) = visit_all (visit (depth tasks) tasks []) [] (keys tasks)

abbrev pub done : {A : Type 0} → Result A → Result (Unit {0})
done (raise e) = raise e
done (ok a) = ok tt

unfoldable pub validate : TaskGraph → Result (Unit {0})
unfolding check_known visit_all visit
validate tasks = done (visit_known tasks (check_known (values tasks) tasks))

abbrev pub completed_in : TaskGraph → String → Bool
completed_in tasks parent = elim (get parent tasks) [
  | none ↦ false
  | some task ↦ is_completed task.status
]

-- The dependencies are known once `validate` has passed; an unknown one is not completed here.
abbrev pub is_runnable : TaskGraph → GraphTask → Bool
is_runnable tasks task = is_pending task.status && all task.dependencies (completed_in tasks)

unfoldable pub runnable : TaskGraph → List GraphTask
runnable tasks = keep (is_runnable tasks) (values tasks)

abbrev pub set_status : GraphTaskStatus → GraphTask → GraphTask
set_status status task = record task { status = status }

abbrev pub block : String → GraphTask → GraphTask
block reason task = record task { status = GraphTaskStatus.blocked; error = some reason }

-- `self.tasks[task_id]`, then assignments to its fields.
abbrev pub at_task : String → (GraphTask → TaskGraph → TaskGraph) → Exec TaskGraph Unit
at_task task_id write tasks = elim (get task_id tasks) [
  | none ↦ throw (key_error task_id) tasks
  | some task ↦ pure tt (write task tasks)
]

unfoldable pub complete : String → Exec TaskGraph Unit
complete task_id = at_task task_id (λ task. modify task_id (set_status GraphTaskStatus.completed))

abbrev pub waits_for : String → String → TaskGraph → Bool
waits_for task_id candidate tasks = elim (get candidate tasks) [
  | none ↦ false
  | some task ↦ contains task_id task.dependencies && is_pending task.status
]

-- The loop of `_block_dependents` over the keys of the tasks.
unfoldable pub block_loop :
    (String → TaskGraph → TaskGraph) → String → String → List String → TaskGraph → TaskGraph
block_loop go task_id reason [] tasks = tasks
block_loop go task_id reason (c ∷ cs) tasks =
    block_loop go task_id reason cs
      (if waits_for task_id c tasks then go c (modify c (block reason) tasks) else tasks)

-- Every call below one has a pending task less, so that `fuel` is no bound at `depth tasks`.
unfoldable pub block_dependents : ℕ → String → String → TaskGraph → TaskGraph
unfolding block_loop
block_dependents zero task_id reason tasks = tasks
block_dependents (suc fuel) task_id reason tasks =
    block_loop (λ c. block_dependents fuel c reason) task_id reason (keys tasks) tasks

abbrev pub failing : String → GraphTask → GraphTask
failing error task =
    if ltb task.retries task.max_retries
    then record task {
      error = some error;
      retries = task.retries + 1;
      status = GraphTaskStatus.pending;
    }
    else record task { error = some error; status = GraphTaskStatus.failed }

unfoldable pub fail : String → String → Exec TaskGraph Unit
unfolding block_dependents
fail task_id error = at_task task_id λ task tasks.
    let marked = modify task_id (failing error) tasks in
    if ltb task.retries task.max_retries
    then marked
    else block_dependents (depth tasks) task_id (concat "Dependency " (concat task_id " failed"))
        marked

unfoldable pub pause : String → Exec TaskGraph Unit
pause task_id = at_task task_id λ task tasks.
    if is_pending task.status
    then modify task_id (set_status GraphTaskStatus.paused) tasks
    else tasks

unfoldable pub resume : String → Exec TaskGraph Unit
resume task_id = at_task task_id λ task tasks.
    if is_paused task.status
    then modify task_id (set_status GraphTaskStatus.pending) tasks
    else tasks

unfoldable pub cancel : String → Exec TaskGraph Unit
unfolding block_dependents
cancel task_id = at_task task_id λ task tasks.
    block_dependents (depth tasks) task_id (concat "Dependency " (concat task_id " cancelled"))
      (modify task_id (set_status GraphTaskStatus.cancelled) tasks)

-- A task that stays depends on `task_id`.
abbrev pub is_needed : List String → String → TaskGraph → Bool
is_needed remove task_id tasks =
    any (values tasks)
      λ task. not (contains task.task_id remove) && contains task_id task.dependencies

-- The first loop of `replan`, over `left` of the tasks in `remove`.
unfoldable pub remove_tasks : List String → List String → Exec TaskGraph Unit
remove_tasks remove [] = pure tt
remove_tasks remove (t ∷ left) = do
  tasks ← reads (λ tasks. ok tasks)
  require (not (is_needed remove t tasks))
      (throw (value_error "Cannot remove a task that remaining tasks depend on"))
  modify_state (pop t)
  remove_tasks remove left

unfoldable pub add_tasks : List GraphTask → Exec TaskGraph Unit
unfolding add_task
add_tasks [] = pure tt
add_tasks (t ∷ ts) = do add_task t; add_tasks ts

-- `remove` is a collection that can be gone through more than once, not an iterator.
unfoldable pub replan : List String → List GraphTask → Exec TaskGraph Unit
unfolding remove_tasks add_tasks validate
replan remove new = do remove_tasks remove remove; add_tasks new; reads validate
