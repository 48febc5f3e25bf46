-- ===== src/Autonomy/Executor/Samples.antt =====
-- A click by an agent in a world that counts what the tools do, and the theorems at it.
use brainless_agent.Common.{
  ℕ, ◌+◌, ◌*◌, ◌≤◌, String, Bool, true, false, none, some, ◌≡◌, ◌≢◌, refl, List, [], ◌∷◌, ◌==◌, ok,
  raise, Error, is_empty, join, contains, not, all, length, All, ◌⊎◌, ◌<◌, key_error, ◌>>=◌, sorted,
  to_set, difference, discard, subset, eq_iff, false≢true,
}
use brainless_agent.Common.Dict.{Dict, get, put, modify, keys, pop}
use brainless_agent.Safety.Permissions.{check}
use brainless_agent.Agents.Models.{Agent, AgentStatus, AgentStatus-discrete}
use brainless_agent.Agents.Tools.{ToolRegistry}
use brainless_agent.Agents.Tools
use brainless_agent.Agents.Manager.{
  new_manager, new_agent, execute_tool, authorize, get_agent, check_permissions, holds,
  check_policy, invoke_logged, log_invocation, change, note, log_event,
}
use brainless_agent.Autonomy.Actions.{ActionResult}
use brainless_agent.Autonomy.Gates.{AutonomyMode, decision}
use brainless_agent.Autonomy.Governor.{new_governor, evaluate, record_result}
use brainless_agent.Autonomy.Proposals.{ActionProposal, validate_action, to_computer_action}
use brainless_agent.Autonomy.Locks.{new_locks, acquire, release_all, release_agent}
use brainless_agent.Autonomy.Locks.Cleanup.{
  SameLocks, IsConsistent, acquire-release, release_agent-breaks,
}
use brainless_agent.Autonomy.World.{
  Values, ComputerState, WorldFact, WorldState, WorldSnapshot, FactKind, new_world, capture, diff,
  get_fact, is_observed,
}
use brainless_agent.Autonomy.World.Versions.{Bounded, calls}
use brainless_agent.Autonomy.World.Freshness.{get_fact-fresh, diff-nonempty}
use brainless_agent.Autonomy.World.Model.{
  WorldModel, TransitionComparison, predict, compare, confidence_of,
}
use brainless_agent.Autonomy.World.Evidence.{
  met, observed_all, observed_all-certain, compare-decides,
}
use brainless_agent.Autonomy.Executor.{Runtime, Environment, default_limits, perform, run_loop}
use brainless_agent.Autonomy.Executor.Records.{Ends, perform-records, perform-once}
use brainless_agent.Autonomy.Executor.Bounds.{run_loop-bounded}
use brainless_agent.Autonomy.Samples.{click, click_action}

abbrev texts : Values String
texts = record {
  text = λ t. t;
  texts = join ",";
  time = λ n. "time";
  nothing = "None";
  same = λ a b. a == b;
}

abbrev screen : ComputerState String
screen = record {
  timestamp = 0;
  active_application = none;
  active_window = none;
  screen_size = none;
  screenshot_reference = none;
  cursor_position = none;
  visible_ui = "button" ∷ [];
  browser_url = none;
  browser_title = some "Shop";
  clipboard = none;
  running_processes = [];
  recent_actions = [];
  last_action_result = none;
  errors = [];
  progress = none;
}

abbrev proposal : ActionProposal String
proposal = record {
  action_type = "mouse.click";
  arguments = ("x", "1") ∷ ("y", "2") ∷ [];
  reason = "press the button";
  expected_state = ("browser_title", "Shop") ∷ [];
}

abbrev world : Environment ℕ String
world = record {
  values = texts;
  as_text = λ t. t;
  truthy = λ t. not (t == "");
  handle = λ tool arguments w. (ok "done", w + 1);
  handle_within = λ seconds tool arguments w. (ok "done", w + 1);
  observe = λ w. (ok screen, w);
  clock = λ w. w;
  new_id = λ w. "new";
  approval_handler = none;
  verifier = λ expected state output. true;
  next_action =
      λ context w. (ok (elim context.previous [ none ↦ some proposal | some x ↦ none ]), w);
  str = λ e. "error";
  redact = λ t. t;
  redact_text = λ t. t;
  is_blank = λ t. t == "";
}

abbrev worker : Agent
worker =
    let agent = new_agent 1 "worker" "Worker" "click" "screen" ("mouse.click" ∷ []) in
    record agent { available_tools = "mouse.click" ∷ []; status = AgentStatus.running }

abbrev start : Runtime ℕ String
start = record {
  manager =
      record (new_manager (("mouse.click", click) ∷ []) (record { modes = []; approved = [] }) 2
        none) { agents = ("worker", worker) ∷ [] };
  locks = new_locks;
  governor = new_governor;
  mode = AutonomyMode.autonomous;
  contracts = [];
  resources = ("mouse.click", "mouse" ∷ "screen" ∷ []) ∷ [];
  model = record { state = new_world 120; causal = []; predictions = [] };
  completed = [];
  audit = [];
  audit_store = none;
  journal = some [];
  recovery_events = [];
  outside = 0;
}

abbrev stem : String → String
stem t = t

abbrev clicked : ActionResult String
clicked = record {
  action_id = "a1";
  success = true;
  output = some "done";
  error = none;
  verified = true;
  duration_ms = 1;
}

performed : (perform world stem click_action start).0 ≡ ok clicked
unfolding perform get ◌>>=◌ evaluate decision check acquire sorted to_set execute_tool authorize
    get_agent AgentStatus-discrete Tools.lookup check_permissions holds check_policy invoke_logged
    log_invocation change note log_event modify Tools.invoke difference keys put contains discard
    pop record_result compare
performed = refl

perform-records_example : Ends click_action start (perform world stem click_action start)
unfolding get
perform-records_example = perform-records world click_action stem start refl

perform-once_example :
    perform world stem click_action (perform world stem click_action start).1
    ≡ (ok clicked, (perform world stem click_action start).1)
perform-once_example =
    perform-once world click_action stem start clicked click_action refl performed

abbrev looped : ActionResult String
looped = record clicked { action_id = "new" }

abbrev never : String → String → Bool
never part text = false

ran_loop :
    (run_loop world stem never default_limits (some 3) none "worker" "t1" "buy" start).0
    ≡ ok (looped ∷ [])
unfolding run_loop perform get ◌>>=◌ evaluate decision check acquire sorted to_set execute_tool
    authorize get_agent AgentStatus-discrete Tools.lookup check_permissions holds check_policy
    invoke_logged log_invocation change note log_event modify Tools.invoke difference keys put
    contains discard pop record_result compare validate_action to_computer_action subset
ran_loop = refl

run_loop-bounded_example : length (looped ∷ []) + 2 ≤ 2 * 3
run_loop-bounded_example =
    run_loop-bounded world stem never "worker" "t1" "buy" default_limits (some 3) none start
      (looped ∷ []) ran_loop

empty-Bounded : Bounded 0 (new_world {V = String} 120).facts
unfolding get
empty-Bounded = record { behind = λ k f e. absurd (none≢some e) }
  where
    none≢some : {A : Type 0} {a : A} → none ≡ some a → ⊥
    none≢some e = cc

diff-nonempty_example :
    let (before, w') = capture texts 1 "before" none 1000000 screen (new_world 120) in
    let (after, w'') = capture texts 2 "after" none 1000000 screen (calls texts [] w') in
    is_empty (diff texts.same before after) ≡ false
diff-nonempty_example =
    diff-nonempty texts (new_world 120) [] 1 2 "before" "after" none none 1000000 1000000 screen
      screen empty-Bounded

abbrev seen : WorldFact String
seen = record {
  value = "Shop";
  kind = FactKind.observed;
  source = "controller";
  timestamp = 0;
  confidence = 1000000;
  evidence = none;
  version = 1;
}

abbrev known : WorldState String
known = record { stale_after = 120; version = 1; facts = ("browser_title", seen) ∷ [] }

reported : (get_fact 60 "browser_title" true known).0 ≡ some seen
unfolding get_fact get
reported = refl

get_fact-fresh_example :
    (get "browser_title" known.facts ≡ some seen)
    × (is_observed seen.kind ≡ true)
    × (60 ≤ seen.timestamp + known.stale_after)
get_fact-fresh_example = get_fact-fresh 60 "browser_title" known seen reported

observed_all-certain_example :
    All
      (λ e.
        (0 < e.observations)
        × ((e.observed_effect ≡ e.expected_effect)
              × (confidence_of e ≡ (e.observations, e.observations))
            ⊎ (e.observed_effect ≢ e.expected_effect) × (confidence_of e ≡ (0, e.observations))))
      (observed_all (("a1", "Shop", "Shop") ∷ ("a1", "Shop", "Home") ∷ []))
observed_all-certain_example =
    observed_all-certain (("a1", "Shop", "Shop") ∷ ("a1", "Shop", "Home") ∷ [])

abbrev model : WorldModel String
model = record { state = known; causal = []; predictions = [] }

abbrev shot : WorldSnapshot String
shot = record { version = 1; captured_at = 60; facts = known.facts }

abbrev text_itself : String → String
text_itself t = t

abbrev hoped : Dict String
hoped = ("browser_title", "Home") ∷ []

compare-decides_example :
    let expected = hoped in
    let (prediction, model') = predict 60 "a1" expected 500000 model in
    let compared = compare texts text_itself "a1" shot in
    ((c : TransitionComparison String) × ((compared model').0 ≡ ok c)
      × (c.prediction ≡ prediction)
      × (c.invalidated ≡ not (all expected (met texts text_itself shot.facts))))
    × (compared (compared model').1 ≡ (raise (key_error "a1"), (compared model').1))
compare-decides_example = compare-decides texts text_itself 60 "a1" hoped 500000 shot model

no_locks-IsConsistent : IsConsistent new_locks
unfolding get
no_locks-IsConsistent = record { consistent = λ j free. refl }

acquire-release_example :
    ((taken : List String)
      → (acquire "worker" ("mouse" ∷ []) new_locks).0 ≡ ok taken
      → SameLocks new_locks
          (release_all "worker" taken (acquire "worker" ("mouse" ∷ []) new_locks).1))
    × ((e : Error)
        → (acquire "worker" ("mouse" ∷ []) new_locks).0 ≡ raise e
        → SameLocks new_locks (acquire "worker" ("mouse" ∷ []) new_locks).1)
acquire-release_example = acquire-release "worker" ("mouse" ∷ []) new_locks no_locks-IsConsistent

abbrev one_agent : String
one_agent = "worker"

abbrev other_agent : String
other_agent = "other"

one≢other : one_agent ≢ other_agent
one≢other e = false≢true ((eq_iff one_agent other_agent).1 e)

release_agent-breaks_example :
    let held = (acquire "worker" ("mouse" ∷ []) new_locks).1 in
    let freed = (release_agent "worker" held).1 in
    let taken = (acquire "other" ("mouse" ∷ []) freed).1 in
    let after = release_all "worker" ("mouse" ∷ []) taken in
    (contains "mouse" taken.locked ≡ true)
    × (contains "mouse" after.locked ≡ false)
    × (get "mouse" after.owners ≡ some "other")
release_agent-breaks_example = release_agent-breaks one_agent other_agent "mouse" one≢other
