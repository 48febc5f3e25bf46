-- ===== src/Autonomy/Missions.antt =====
-- app/autonomy/mission.py: missions and the file that keeps them, and what task_runner.py saves of a
-- task graph. The file is the dictionary of its entries, in the order of insertion where the file is
-- sorted by the keys. `json` is what JSON makes of a dynamic value when it is written and read: a
-- list of a tuple, a text of what it does not know. The texts, numbers and lists of texts of a
-- mission come back as they were, its two tuples of texts made tuples again. Times are texts, as the
-- code stores them.
pub mod Saved
pub mod Operator
mod Background
pub mod Turns
pub mod Idle
mod Samples
use brainless_agent.Common.{
  ℕ, ◌+◌, String, concat, Bool, true, false, not, ◌&&◌, ◌||◌, ◌==◌, Option, none, some, List, [],
  ◌∷◌, if◌then◌else◌, Result, ok, raise, Error, value_error, sorted, contains, ℤ,
}
use brainless_agent.Common.Dict.{Dict, get, put, values, modify, has}
use brainless_agent.Autonomy.TaskGraph.{GraphTaskStatus, GraphTask, TaskGraph}

pub data MissionStatus : Type 0 where
  created planning running waiting blocked paused awaiting_user recovering : MissionStatus
  completed partially_completed failed cancelled : MissionStatus

-- `MissionStatus.X.value`
unfoldable pub status_value : MissionStatus → String
status_value created = "created"
status_value planning = "planning"
status_value running = "running"
status_value waiting = "waiting"
status_value blocked = "blocked"
status_value paused = "paused"
status_value awaiting_user = "awaiting_user"
status_value recovering = "recovering"
status_value completed = "completed"
status_value partially_completed = "partially_completed"
status_value failed = "failed"
status_value cancelled = "cancelled"

-- `MissionStatus(value)`
unfoldable pub mission_status : String → Result MissionStatus
mission_status value =
    if value == "created"
    then ok created
    else if value == "planning"
    then ok planning
    else if value == "running"
    then ok running
    else if value == "waiting"
    then ok waiting
    else if value == "blocked"
    then ok blocked
    else if value == "paused"
    then ok paused
    else if value == "awaiting_user"
    then ok awaiting_user
    else if value == "recovering"
    then ok recovering
    else if value == "completed"
    then ok completed
    else if value == "partially_completed"
    then ok partially_completed
    else if value == "failed"
    then ok failed
    else if value == "cancelled"
    then ok cancelled
    else raise (value_error (concat value " is not a valid MissionStatus"))

-- What `TaskEngineMissionRunner._serialize` writes of one task.
pub record SavedTask : Type 0 where
  pub objective : String
  pub status : String
  pub dependencies : List String
  pub retries : ℕ
  pub error : Option String

pub record MissionProgress : Type 0 where
  pub tasks_completed : ℕ
  pub tasks_remaining : ℕ
  pub blocked_tasks : ℕ
  pub verification_status : Bool

-- `S` is the type of the status: `MissionStatus` in a mission, a text in what is stored of it.
pub record MissionData (S V : Type 0) : Type 0 where
  pub goal : String
  pub owner : String
  pub constraints : List String
  pub priority : ℤ
  pub status : S
  pub deadline : Option String
  pub task_graph : Dict SavedTask
  pub current_state : Dict V
  pub acceptance_criteria : List String
  pub risk_policy : String
  pub resource_policy : String
  pub checkpoint : Dict V
  pub progress : Option MissionProgress
  pub next_wakeup : Option String
  pub mission_id : String
  pub created_at : String
  pub last_activity : String

abbrev pub Mission : Type 0 → Type 0
Mission V = MissionData MissionStatus V

abbrev pub StoredMission : Type 0 → Type 0
StoredMission V = MissionData String V

-- The same fields with another status
unfoldable pub with_status : {S T V : Type 0} → T → MissionData S V → MissionData T V
with_status status m = record {
  goal = m.goal;
  owner = m.owner;
  constraints = m.constraints;
  priority = m.priority;
  status = status;
  deadline = m.deadline;
  task_graph = m.task_graph;
  current_state = m.current_state;
  acceptance_criteria = m.acceptance_criteria;
  risk_policy = m.risk_policy;
  resource_policy = m.resource_policy;
  checkpoint = m.checkpoint;
  progress = m.progress;
  next_wakeup = m.next_wakeup;
  mission_id = m.mission_id;
  created_at = m.created_at;
  last_activity = m.last_activity;
}

-- `touch`
abbrev pub touch : {S V : Type 0} → (now : String) → MissionData S V → MissionData S V
touch now m = record m { last_activity = now }

unfoldable pub count : (SavedTask → Bool) → List SavedTask → ℕ
count p [] = 0
count p (t ∷ ts) = if p t then count p ts + 1 else count p ts

abbrev is_completed : MissionStatus → Bool
is_completed MissionStatus.completed = true
is_completed status = false

unfoldable pub refresh_progress : {V : Type 0} → Mission V → Mission V
unfolding count
refresh_progress m =
    let nodes = values m.task_graph in
    record m {
      progress = some (record {
        tasks_completed = count (λ t. t.status == "completed") nodes;
        tasks_remaining = count (λ t. (t.status == "pending") || (t.status == "running")) nodes;
        blocked_tasks = count (λ t. t.status == "blocked") nodes;
        verification_status = is_completed m.status;
      });
    }

abbrev pub MissionStore : Type 0 → Type 0
MissionStore V = Dict (StoredMission V)

-- The values of a dictionary after JSON.
unfoldable pub convert : {V : Type 0} → (V → V) → Dict V → Dict V
convert json [] = []
convert json ((k, v) ∷ d) = (k, json v) ∷ convert json d

-- A mission with the dynamic values of its two dictionaries after JSON.
abbrev pub reread : {S V : Type 0} → (json : V → V) → MissionData S V → MissionData S V
reread json m = record m {
  current_state = convert json m.current_state;
  checkpoint = convert json m.checkpoint;
}

-- `MissionStore.save`; the other missions of the file have been through JSON before.
unfoldable pub save : {V : Type 0} → (json : V → V) → Mission V → MissionStore V → MissionStore V
unfolding with_status status_value convert
save json m store = put m.mission_id (with_status (status_value m.status) (reread json m)) store

abbrev pub with_parsed : {V : Type 0} → StoredMission V → Result MissionStatus → Result (Mission V)
with_parsed entry (ok status) = ok (with_status status entry)
with_parsed entry (raise e) = raise e

-- `_mission`
unfoldable pub mission_of : {V : Type 0} → StoredMission V → Result (Mission V)
unfolding with_status mission_status
mission_of entry = with_parsed entry (mission_status entry.status)

abbrev some_mission : {V : Type 0} → Result (Mission V) → Result (Option (Mission V))
some_mission (ok m) = ok (some m)
some_mission (raise e) = raise e

abbrev pub load_found : {V : Type 0} → Option (StoredMission V) → Result (Option (Mission V))
load_found none = ok none
load_found (some entry) = some_mission (mission_of entry)

-- `MissionStore.load`
unfoldable pub load : {V : Type 0} → String → MissionStore V → Result (Option (Mission V))
unfolding mission_of
load mission_id store = load_found (get mission_id store)

abbrev add_mission : {A : Type 0} → Bool → Result A → Result (List A) → Result (List A)
add_mission wanted (raise e) rest = raise e
add_mission wanted (ok m) (raise e) = raise e
add_mission wanted (ok m) (ok ms) = if wanted then ok (m ∷ ms) else ok ms

-- `status in {...}` of `active`, by the stored text
abbrev is_terminal : String → Bool
is_terminal status =
    (status == "completed")
    || (status == "partially_completed")
    || (status == "failed")
    || (status == "cancelled")

-- `MissionStore.active` and `all`
unfoldable pub active : {V : Type 0} → List (StoredMission V) → Result (List (Mission V))
unfolding mission_of
active [] = ok []
active (entry ∷ rest) =
    add_mission (not (is_terminal entry.status)) (mission_of entry) (active rest)

unfoldable pub all_missions : {V : Type 0} → List (StoredMission V) → Result (List (Mission V))
unfolding mission_of
all_missions [] = ok []
all_missions (entry ∷ rest) = add_mission true (mission_of entry) (all_missions rest)

-- `GraphTaskStatus.X.value`
unfoldable pub task_status_value : GraphTaskStatus → String
task_status_value GraphTaskStatus.pending = "pending"
task_status_value GraphTaskStatus.running = "running"
task_status_value GraphTaskStatus.completed = "completed"
task_status_value GraphTaskStatus.failed = "failed"
task_status_value GraphTaskStatus.blocked = "blocked"
task_status_value GraphTaskStatus.paused = "paused"
task_status_value GraphTaskStatus.cancelled = "cancelled"

-- `GraphTaskStatus(value)`, with `none` for a text that is the value of no status
unfoldable pub task_status : String → Option GraphTaskStatus
task_status value =
    if value == "pending"
    then some GraphTaskStatus.pending
    else if value == "running"
    then some GraphTaskStatus.running
    else if value == "completed"
    then some GraphTaskStatus.completed
    else if value == "failed"
    then some GraphTaskStatus.failed
    else if value == "blocked"
    then some GraphTaskStatus.blocked
    else if value == "paused"
    then some GraphTaskStatus.paused
    else if value == "cancelled"
    then some GraphTaskStatus.cancelled
    else none

abbrev pub saved_task : GraphTask → SavedTask
saved_task task = record {
  objective = task.objective;
  status = task_status_value task.status;
  dependencies = sorted task.dependencies;
  retries = task.retries;
  error = task.error;
}

-- `TaskEngineMissionRunner._serialize`
unfoldable pub serialize : TaskGraph → Dict SavedTask
unfolding task_status_value
serialize [] = []
serialize ((task_id, task) ∷ rest) = (task_id, saved_task task) ∷ serialize rest

abbrev pub restored : Option GraphTaskStatus → SavedTask → GraphTask → GraphTask
restored none entry task = task
restored (some status) entry task = record task {
  status = status;
  retries = entry.retries;
  error = entry.error;
}

-- `TaskEngineMissionRunner._restore`: `modify` leaves a graph without the task as it is.
unfoldable pub restore : Dict SavedTask → TaskGraph → TaskGraph
unfolding task_status
restore [] tasks = tasks
restore ((task_id, entry) ∷ rest) tasks =
    restore rest (modify task_id (restored (task_status entry.status) entry) tasks)
