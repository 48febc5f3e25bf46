-- ===== src/Autonomy/Missions/Samples.antt =====
-- A mission of two tasks, and the theorems on missions and events at it.
use brainless_agent.Common.{
  Bool, true, if◌then◌else◌, ℕ, String, false, none, some, ◌≡◌, refl, [], ◌∷◌, ◌==◌, join, ok, pos,
}
use brainless_agent.Common.Dict.{Dict, get}
use brainless_agent.Autonomy.Gates.{AutonomyMode}
use brainless_agent.Autonomy.TaskGraph.{GraphTask, GraphTaskStatus, TaskGraph}
use brainless_agent.Autonomy.World.{ComputerState, new_world}
use brainless_agent.Autonomy.Events.{EventType, AutonomousEvent, new_bus}
use brainless_agent.Autonomy.Events.Retention.{latest, log_from, publish_all, history-refines}
use brainless_agent.Autonomy.Missions.{
  MissionStatus, Mission, reread, save, load, serialize, restore,
}
use brainless_agent.Autonomy.Missions.Saved.{load-save, restore-serialize, resumed}
use brainless_agent.Autonomy.Missions.Operator.{
  OperatorWorld, AutonomousOperator, run_once, process_event, classify,
}
use brainless_agent.Autonomy.Missions.Turns.{IsResting, run_once-rests, process_event-status}
use brainless_agent.Autonomy.Missions.Idle.{run_once-idle, with_runner, Runner}

abbrev mission : Mission String
mission = record {
  goal = "buy a book";
  owner = "user";
  constraints = [];
  priority = pos 0;
  status = MissionStatus.paused;
  deadline = none;
  task_graph = [];
  current_state = ("screen_size", "tuple") ∷ [];
  acceptance_criteria = [];
  risk_policy = "autonomous";
  resource_policy = "exclusive";
  checkpoint = [];
  progress = none;
  next_wakeup = none;
  mission_id = "m1";
  created_at = "noon";
  last_activity = "noon";
}

-- JSON makes a list of a tuple.
abbrev as_json : String → String
as_json v = if v == "tuple" then "list" else v

as_json-twice : (v : String) → as_json (as_json v) ≡ as_json v
as_json-twice v = go (v == "tuple") refl
  where
    go :
        (b : Bool)
        → (v == "tuple") ≡ b
        → as_json (if b then "list" else v) ≡ (if b then "list" else v)
    go true e = refl
    go false e = rw e refl

abbrev read : Mission String
read = reread as_json mission

load-save_example :
    (load "m1" (save as_json mission []) ≡ ok (some read))
    × ((j : String)
        → ("m1" == j) ≡ false
        → load j (save as_json mission []) ≡ load {V = String} j [])
    × (load "m1" (save as_json read []) ≡ ok (some read))
load-save_example = load-save as_json mission [] as_json-twice

abbrev task : String → GraphTaskStatus → GraphTask
task task_id status = record {
  task_id = task_id;
  objective = "do it";
  dependencies = [];
  capabilities = [];
  permissions = [];
  resources = [];
  tool = none;
  priority = pos 0;
  deadline = none;
  high_risk = false;
  requires_approval = false;
  status = status;
  retries = 1;
  max_retries = 2;
  error = some "slow";
}

abbrev before : TaskGraph
before = ("a", task "a" GraphTaskStatus.completed) ∷ []

abbrev rebuilt : TaskGraph
rebuilt = ("a", record (task "a" GraphTaskStatus.pending) { retries = 0; error = none }) ∷ []

restore-serialize_example :
    get "a" (restore (serialize before) rebuilt)
    ≡ some (
        resumed
          (task "a" GraphTaskStatus.completed)
          (record (task "a" GraphTaskStatus.pending) { retries = 0; error = none }))
unfolding get
restore-serialize_example =
    restore-serialize before rebuilt "a" (task "a" GraphTaskStatus.completed)
      (record (task "a" GraphTaskStatus.pending) { retries = 0; error = none }) (refl, tt) refl refl

abbrev event : EventType → AutonomousEvent String
event type = record {
  type = type;
  mission_id = some "m1";
  detail = [];
  timestamp = 0;
  correlation_id = "c";
  sequence = 0;
}

abbrev same_detail : Dict String → Dict String
same_detail detail = detail

history-refines_example :
    (publish_all same_detail
      (event EventType.task_failed ∷ event EventType.agent_failed ∷ [])
      (new_bus 1 none [])).history
    ≡ latest 1
        (log_from same_detail 0 (event EventType.task_failed ∷ event EventType.agent_failed ∷ []))
history-refines_example =
    history-refines same_detail 1 none
      (event EventType.task_failed ∷ event EventType.agent_failed ∷ [])

abbrev screen : ComputerState String
screen = record {
  timestamp = 0;
  active_application = none;
  active_window = none;
  screen_size = none;
  screenshot_reference = none;
  cursor_position = none;
  visible_ui = [];
  browser_url = none;
  browser_title = none;
  clipboard = none;
  running_processes = [];
  recent_actions = [];
  last_action_result = none;
  errors = [];
  progress = none;
}

abbrev finishes : Runner ℕ String
finishes m w = (ok MissionStatus.completed, m, w)

abbrev fails : Runner ℕ String
fails m w = (ok MissionStatus.failed, m, w)

abbrev desk : OperatorWorld ℕ String
desk = record {
  values = record {
    text = λ t. t;
    texts = join ",";
    time = λ n. "time";
    nothing = "None";
    same = λ a b. a == b;
  };
  number = λ n. "number";
  observe = λ w. (ok screen, w);
  clock = λ w. w;
  stamp = λ w. "later";
  new_id = λ w. "id";
  through_json = as_json;
  runner = finishes;
  event_handlers = [];
  str = λ e. "error";
  redact_text = λ t. t;
  redact_detail = λ d. d;
}

abbrev operator : AutonomyMode → AutonomousOperator ℕ String
operator mode = record {
  store = save as_json mission [];
  world = new_world 120;
  last = none;
  events = new_bus 10 none [];
  mode = mode;
  outside = 0;
}

stored : load "m1" (save as_json mission []) ≡ ok (some read)
stored = load-save_example.0

run_once-rests_example :
    run_once desk "m1" (operator AutonomyMode.autonomous)
    ≡ (ok read, operator AutonomyMode.autonomous)
run_once-rests_example =
    run_once-rests desk "m1" read (operator AutonomyMode.autonomous) stored IsResting.paused

process_event-status_example :
    let (result, o') =
      process_event desk (event EventType.agent_failed) (operator AutonomyMode.autonomous) in
    (n : Mission String) × (result ≡ ok (some n))
    × (n.status ≡ MissionStatus.recovering)
    × (load "m1" o'.store ≡ ok (some (reread as_json n)))
unfolding classify
process_event-status_example =
    process_event-status desk (event EventType.agent_failed) "m1" read MissionStatus.recovering
      (operator AutonomyMode.autonomous) refl refl stored refl

run_once-idle_example :
    run_once desk "m1" (operator AutonomyMode.watch)
    ≡ run_once (with_runner fails desk) "m1" (operator AutonomyMode.watch)
run_once-idle_example = run_once-idle desk fails "m1" (operator AutonomyMode.watch) refl
