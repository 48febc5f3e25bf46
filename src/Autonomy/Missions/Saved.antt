-- ===== src/Autonomy/Missions/Saved.antt =====
-- What is saved of missions and graphs comes back.
use brainless_agent.Common.{
  String, false, Option, none, some, ◌≡◌, refl, ◌∙◌, ap, subst, [], ◌∷◌, arith, ◌==◌, eq_iff,
  eq_refl, Bool-cases, inl, inr, Result, ok, raise, some-injective,
}
use brainless_agent.Common.Dict.{Dict, get, put, modify, get-put, get-modify}
use brainless_agent.Autonomy.TaskGraph.{GraphTaskStatus, GraphTask, TaskGraph}
use brainless_agent.Autonomy.Missions.{
  MissionStatus, Mission, MissionStore, status_value, mission_status, with_status, with_parsed,
  convert, reread, save, load, load_found, mission_of, task_status, task_status_value, serialize,
  restore, restored, saved_task,
}

mission_status-value : (s : MissionStatus) → mission_status (status_value s) ≡ ok s
unfolding mission_status status_value
mission_status-value MissionStatus.created = refl
mission_status-value MissionStatus.planning = refl
mission_status-value MissionStatus.running = refl
mission_status-value MissionStatus.waiting = refl
mission_status-value MissionStatus.blocked = refl
mission_status-value MissionStatus.paused = refl
mission_status-value MissionStatus.awaiting_user = refl
mission_status-value MissionStatus.recovering = refl
mission_status-value MissionStatus.completed = refl
mission_status-value MissionStatus.partially_completed = refl
mission_status-value MissionStatus.failed = refl
mission_status-value MissionStatus.cancelled = refl

mission_of-stored :
    {V : Type 0} (m : Mission V) → mission_of (with_status (status_value m.status) m) ≡ ok m
unfolding mission_of with_status
mission_of-stored m =
    ap (with_parsed (with_status (status_value m.status) m)) (mission_status-value m.status)

-- What is loaded of the mission that was saved last.
pub load-saved :
    {V : Type 0} (json : V → V) (m : Mission V) (store : MissionStore V)
    → load m.mission_id (save json m store) ≡ ok (some (reread json m))
unfolding load save
load-saved {V} json m store =
    let entry = with_status (status_value m.status) (reread json m) in
    let found : get m.mission_id (put m.mission_id entry store) ≡ some entry =
      get-put m.mission_id m.mission_id entry store ∙ rw (eq_refl m.mission_id) refl in
    ap load_found found ∙ ap some_result (mission_of-stored (reread json m))
  where
    some_result : Result (Mission V) → Result (Option (Mission V))
    some_result (ok x) = ok (some x)
    some_result (raise e) = raise e

load-others :
    {V : Type 0} (json : V → V) (m : Mission V) (store : MissionStore V) (j : String)
    → (m.mission_id == j) ≡ false
    → load j (save json m store) ≡ load j store
unfolding load save
load-others json m store j other =
    let entry = with_status (status_value m.status) (reread json m) in
    let same : get j (put m.mission_id entry store) ≡ get j store =
      get-put m.mission_id j entry store ∙ rw other refl in
    ap load_found same

convert-twice :
    {V : Type 0} (json : V → V) (d : Dict V)
    → ((v : V) → json (json v) ≡ json v)
    → convert json (convert json d) ≡ convert json d
unfolding convert
convert-twice json [] same = refl
convert-twice json ((k, v) ∷ d) same = rw (same v, convert-twice json d same) refl

-- A mission that is saved is loaded with all of its fields as they were, but for the dynamic values
-- of `current_state` and `checkpoint`, which come back as JSON makes them, whatever was saved before,
-- and what is loaded of the other missions stays the same. Where JSON makes no more of what it read,
-- a mission that was loaded is saved and loaded as it is.
pub load-save :
    {V : Type 0} (json : V → V) (m : Mission V) (store : MissionStore V)
    → ((v : V) → json (json v) ≡ json v)
    → (load m.mission_id (save json m store) ≡ ok (some (reread json m)))
      × ((j : String) → (m.mission_id == j) ≡ false → load j (save json m store) ≡ load j store)
      × (load m.mission_id (save json (reread json m) store) ≡ ok (some (reread json m)))
load-save json m store same = (
  load-saved json m store,
  load-others json m store,
  load-saved json (reread json m) store
      ∙ ap
          (λ d. ok (
            some (record m {
              current_state = d;
              checkpoint = convert json (convert json m.checkpoint);
            })))
          (convert-twice json m.current_state same)
      ∙ ap
          (λ d.
            ok (some (record m { current_state = convert json m.current_state; checkpoint = d })))
          (convert-twice json m.checkpoint same),
)

task_status-value : (s : GraphTaskStatus) → task_status (task_status_value s) ≡ some s
unfolding task_status task_status_value
task_status-value GraphTaskStatus.pending = refl
task_status-value GraphTaskStatus.running = refl
task_status-value GraphTaskStatus.completed = refl
task_status-value GraphTaskStatus.failed = refl
task_status-value GraphTaskStatus.blocked = refl
task_status-value GraphTaskStatus.paused = refl
task_status-value GraphTaskStatus.cancelled = refl

-- No key stands twice, as in every dictionary of Python.
abbrev pub IsDict : {A : Type 0} → Dict A → Type 0
IsDict [] = Unit
IsDict ((k, v) ∷ d) = (get k d ≡ none) × IsDict d

-- The run of a task as the graph `g` has it, in the task `t` of another graph.
abbrev pub resumed : GraphTask → GraphTask → GraphTask
resumed saved t = record t { status = saved.status; retries = saved.retries; error = saved.error }

restored-saved :
    (saved t : GraphTask)
    → restored (task_status (saved_task saved).status) (saved_task saved) t ≡ resumed saved t
restored-saved saved t = ap (λ o. restored o (saved_task saved) t) (task_status-value saved.status)

restore-absent :
    (j : String) (g g0 : TaskGraph) → get j g ≡ none → get j (restore (serialize g) g0) ≡ get j g0
unfolding restore serialize get
restore-absent j [] g0 e = refl
restore-absent j ((k, t) ∷ g) g0 e = elim (Bool-cases (k == j)) [
  | inl same ↦ ground (arith, same, e)
  | inr other ↦
      restore-absent j g _ (ground (arith, other, e))
      ∙ get-modify k j (restored (task_status (saved_task t).status) (saved_task t)) g0
      ∙ rw other refl
]

-- What is saved of a graph and restored into a graph that has a task of the same name: this task
-- gets the status, the retries and the error that the saved one had, and keeps the rest.
pub restore-serialize :
    (g g0 : TaskGraph) (j : String) (saved t : GraphTask)
    → IsDict g
    → get j g ≡ some saved
    → get j g0 ≡ some t
    → get j (restore (serialize g) g0) ≡ some (resumed saved t)
unfolding restore serialize get
restore-serialize [] g0 j saved t d e e0 = ground (arith, e)
restore-serialize ((k, s) ∷ g) g0 j saved t d e e0 = elim (Bool-cases (k == j)) [
  | inl same ↦
      let here : s ≡ saved = some-injective (ground (arith, same, e)) in
      let f = restored (task_status (saved_task s).status) (saved_task s) in
      let changed : get j (modify k f g0) ≡ some (f t) =
        get-modify k j f g0 ∙ ground (arith, same, e0) in
      restore-absent j g (modify k f g0) (subst (λ i. get i g ≡ none) ((eq_iff k j).0 same) d.0)
      ∙ changed
      ∙ ap some (restored-saved s t)
      ∙ ap (λ x. some (resumed x t)) here
  | inr other ↦ restore-serialize g _ j saved t d.1 (ground (arith, other, e)) (
      get-modify k j (restored (task_status (saved_task s).status) (saved_task s)) g0
      ∙ ground (arith, other, e0))
]
