-- ===== src/Autonomy/Missions/Operator.antt =====
-- app/autonomy/operator.py and perception_service.py: turns of a mission. `W` is the world outside,
-- with the clock, the controller, the runner of missions and the other handlers of events. The
-- confidence of an observation is the default, 1.0.
use brainless_agent.Common.{
  ℕ, String, concat, Bool, true, false, Option, none, some, List, [], ◌∷◌, is_empty, if◌then◌else◌,
  Result, ok, raise, Error, Exec, pure, throw, reads, modify_state, ◌>>=◌, ◌>>◌, key_error,
  cancelled, contains, sorted,
}
use brainless_agent.Common.Dict.{Dict, put, keys}
use brainless_agent.Autonomy.Gates.{AutonomyMode}
use brainless_agent.Autonomy.World.{
  Values, ComputerState, WorldSnapshot, WorldState, capture, diff, fact_values,
}
use brainless_agent.Autonomy.Events.{
  EventType, AutonomousEvent, AutonomousEventBus, publish, type_value,
}
use brainless_agent.Autonomy.Missions.{
  MissionStatus, Mission, MissionStore, save, load, touch, refresh_progress,
}

-- `Values` with the dynamic value of a number, and the list of a text
pub record OperatorWorld (W V : Type 0) : Type 0 where
  pub values : Values V
  pub number : ℕ → V
  pub observe : W → Result (ComputerState V) × W
  pub clock : W → ℕ
  pub stamp : W → String
  pub new_id : W → String
  pub through_json : V → V
  pub runner : Mission V → W → Result MissionStatus × Mission V × W
  pub event_handlers : List (AutonomousEvent V → W → Result (Unit {0}) × W)
  pub str : Error → String
  pub redact_text : String → String
  pub redact_detail : Dict V → Dict V

-- `last` is the `_last` of the perception service, `mode` that of the takeover manager.
pub record AutonomousOperator (W V : Type 0) : Type 0 where
  pub store : MissionStore V
  pub world : WorldState V
  pub last : Option (WorldSnapshot V)
  pub events : AutonomousEventBus V
  pub mode : AutonomyMode
  pub outside : W

-- `BlockerDetector.classify`
unfoldable pub classify : EventType → Option MissionStatus
classify EventType.user_takeover = some MissionStatus.awaiting_user
classify EventType.resource_conflict = some MissionStatus.waiting
classify EventType.agent_failed = some MissionStatus.recovering
classify EventType.task_failed = some MissionStatus.blocked
classify type = none

module _ {W V : Type 0} (env : OperatorWorld W V) where
  unfoldable pub on_outside : {A : Type 0} → (W → Result A × W) → Exec (AutonomousOperator W V) A
  on_outside f o = let (result, outside) = f o.outside in (result, record o { outside = outside })

  -- `await self.events.publish(AutonomousEvent(type, mission_id, detail))`
  unfoldable pub publish_event :
      EventType → Option String → Dict V → AutonomousOperator W V → AutonomousOperator W V
  unfolding publish
  publish_event type mission_id detail o =
      let event : AutonomousEvent V = record {
        type = type;
        mission_id = mission_id;
        detail = detail;
        timestamp = env.clock o.outside;
        correlation_id = env.new_id o.outside;
        sequence = 0;
      } in
      record o { events = publish env.redact_detail event o.events }

  abbrev event_for : List String → EventType
  event_for changed =
      if contains "browser_url" changed
      then EventType.browser_navigated
      else if contains "active_window" changed
      then EventType.window_changed
      else EventType.screen_changed

  -- The event of `PerceptionService.observe`
  unfoldable pub report_change :
      Option String
      → Option (WorldSnapshot V)
      → WorldSnapshot V
      → AutonomousOperator W V
      → AutonomousOperator W V
  unfolding publish_event diff
  report_change mission_id none shot o = o
  report_change mission_id (some last) shot o =
      let changed = diff env.values.same last shot in
      if is_empty changed
      then o
      else publish_event (event_for (keys changed)) mission_id
          (("changed", env.values.texts (sorted (keys changed))) ∷ []) o

  abbrev pub capture_world :
      ComputerState V → AutonomousOperator W V → WorldSnapshot V × AutonomousOperator W V
  capture_world state o =
      let (shot, world) =
        capture env.values (env.clock o.outside) "perception" none 1000000 state o.world in
      (shot, record o { world = world })

  -- `PerceptionService.observe`
  unfoldable pub perceive : Option String → Exec (AutonomousOperator W V) (WorldSnapshot V)
  unfolding on_outside capture report_change
  perceive mission_id = do
    state ← on_outside env.observe
    (λ o.
        let (shot, o') = capture_world state o in
        (ok shot, record (report_change mission_id o'.last shot o') { last = some shot }))

  -- `mission.touch(); self.store.save(mission)`, of the mission that is returned
  unfoldable pub save_touched : Mission V → Exec (AutonomousOperator W V) (Mission V)
  unfolding save
  save_touched mission o =
      let m = touch (env.stamp o.outside) mission in
      (ok m, record o { store = save env.through_json m o.store })

  -- `AutonomousOperator.create`
  unfoldable pub create : Mission V → Exec (AutonomousOperator W V) (Mission V)
  unfolding save_touched publish_event
  create mission = do
    m ← save_touched (record mission { status = MissionStatus.planning })
    modify_state (publish_event EventType.mission_triggered (some m.mission_id) [])
    pure m

  -- What the run of a mission leaves, by what the runner returned or raised.
  unfoldable pub after_run :
      (mission_id : String)
      → Result MissionStatus × Mission V
      → Exec (AutonomousOperator W V) (Mission V)
  unfolding save_touched publish_event refresh_progress
  after_run mission_id (raise cancelled, m) = throw cancelled
  after_run mission_id (ok status, m) =
      save_touched (refresh_progress (record m { status = status }))
  after_run mission_id (raise e, m) = do
    let safe = env.redact_text (env.str e)
    modify_state (
        publish_event EventType.agent_failed (some mission_id)
          (("error", env.values.text safe) ∷ []))
    save_touched (
        refresh_progress (record m {
          status = MissionStatus.recovering;
          checkpoint = put "last_error" (env.values.text safe) m.checkpoint;
        }))

  -- The run of the mission in a mode that lets it run.
  unfoldable pub run_mission : Mission V → Exec (AutonomousOperator W V) (Mission V)
  unfolding save_touched after_run
  run_mission mission = do
    m ← save_touched (record mission { status = MissionStatus.running })
    ended ← (λ o.
        let (result, m', outside) = env.runner m o.outside in
        (ok (result, m'), record o { outside = outside }))
    after_run mission.mission_id ended

  -- What follows the observation, by the mode.
  unfoldable pub by_mode : AutonomyMode → Mission V → Exec (AutonomousOperator W V) (Mission V)
  unfolding run_mission
  by_mode AutonomyMode.takeover m = save_touched (record m { status = MissionStatus.awaiting_user })
  by_mode AutonomyMode.autonomous m = run_mission m
  by_mode AutonomyMode.supervised m = run_mission m
  by_mode mode m = save_touched (record m { status = MissionStatus.waiting })

  abbrev pub seen_in : WorldSnapshot V → Mission V → Mission V
  seen_in shot m = record m {
    current_state = fact_values shot.facts;
    checkpoint = put "world_version" (env.number shot.version) m.checkpoint;
  }

  -- `COMPLETED`, `FAILED`, `CANCELLED`, `PAUSED` and `BLOCKED` are left alone.
  abbrev pub rests : MissionStatus → Bool
  rests MissionStatus.completed = true
  rests MissionStatus.failed = true
  rests MissionStatus.cancelled = true
  rests MissionStatus.paused = true
  rests MissionStatus.blocked = true
  rests status = false

  -- A turn of a mission that does not rest
  unfoldable pub turn : Mission V → Exec (AutonomousOperator W V) (Mission V)
  unfolding perceive by_mode
  turn m = do shot ← perceive (some m.mission_id); (λ o. by_mode o.mode (seen_in shot m) o)

  unfoldable pub run_loaded :
      String → Option (Mission V) → Exec (AutonomousOperator W V) (Mission V)
  unfolding turn
  run_loaded mission_id none = throw (key_error (concat "Unknown mission: " mission_id))
  run_loaded mission_id (some m) = if rests m.status then pure m else turn m

  -- `run_once`
  unfoldable pub run_once : String → Exec (AutonomousOperator W V) (Mission V)
  unfolding run_loaded load
  run_once mission_id = do found ← reads (λ o. load mission_id o.store); run_loaded mission_id found

  unfoldable pub call_handlers :
      List (AutonomousEvent V → W → Result (Unit {0}) × W)
      → AutonomousEvent V
      → Exec (AutonomousOperator W V) Unit
  unfolding on_outside
  call_handlers [] event = pure tt
  call_handlers (handler ∷ rest) event = do on_outside (handler event); call_handlers rest event

  abbrev pub is_takeover : EventType → Bool
  is_takeover EventType.user_takeover = true
  is_takeover type = false

  -- `UserTakeoverManager.begin` and `resume`
  abbrev pub begin_takeover : AutonomousOperator W V → AutonomousOperator W V
  begin_takeover o = record o { mode = AutonomyMode.takeover }

  abbrev pub resume_takeover : AutonomousOperator W V → AutonomousOperator W V
  resume_takeover o = record o { mode = AutonomyMode.autonomous }

  abbrev pub status_after : EventType → MissionStatus → MissionStatus
  status_after type status = elim (classify type) [ none ↦ status | some s ↦ s ]

  unfoldable pub note_event :
      AutonomousEvent V → Option (Mission V) → Exec (AutonomousOperator W V) (Option (Mission V))
  unfolding save_touched classify type_value
  note_event event none = pure none
  note_event event (some m) = do
    noted ← save_touched (record m {
      status = status_after event.type m.status;
      checkpoint = put "last_event" (env.values.text (type_value event.type)) m.checkpoint;
    })
    pure (some noted)

  abbrev note_mission :
      AutonomousEvent V → Option String → Exec (AutonomousOperator W V) (Option (Mission V))
  note_mission event none = pure none
  note_mission event (some mission_id) = do
    found ← reads (λ o. load mission_id o.store)
    note_event event found

  unfoldable pub process_event :
      AutonomousEvent V → Exec (AutonomousOperator W V) (Option (Mission V))
  unfolding call_handlers note_event load
  process_event event = do
    call_handlers env.event_handlers event
    modify_state (λ o. if is_takeover event.type then begin_takeover o else o)
    note_mission event event.mission_id
