-- ===== src/Autonomy/Missions/Turns.antt =====
-- Which missions a turn leaves alone, and what an event does to a mission.
use brainless_agent.Common.{
  String, Bool, true, false, Option, some, ◌≡◌, refl, sym, subst, [], arith, Result, ok, ◌>>=◌,
  if◌then◌else◌,
}
use brainless_agent.Common.Dict.{put}
use brainless_agent.Autonomy.Events.{AutonomousEvent, type_value}
use brainless_agent.Autonomy.Missions.{MissionStatus, Mission, load, touch, reread}
use brainless_agent.Autonomy.Missions.Saved.{load-saved}
use brainless_agent.Autonomy.Missions.Operator.{
  OperatorWorld, AutonomousOperator, run_once, run_loaded, rests, save_touched, classify,
  status_after, note_event, process_event, call_handlers, is_takeover, begin_takeover,
}

-- The statuses of missions that only a person or an event sets going again.
pub data IsResting : MissionStatus → Type 0 where
  completed : IsResting MissionStatus.completed
  failed : IsResting MissionStatus.failed
  cancelled : IsResting MissionStatus.cancelled
  paused : IsResting MissionStatus.paused
  blocked : IsResting MissionStatus.blocked

module _ {W V : Type 0} (env : OperatorWorld W V) where
  resting : (status : MissionStatus) → IsResting status → rests env status ≡ true
  resting status completed = refl
  resting status failed = refl
  resting status cancelled = refl
  resting status paused = refl
  resting status blocked = refl

  -- A turn of a mission that is completed, failed, cancelled, paused or blocked returns it as it is
  -- stored, and changes nothing: nothing is observed and the runner is not called.
  pub run_once-rests :
      (mission_id : String) (m : Mission V) (o : AutonomousOperator W V)
      → load mission_id o.store ≡ ok (some m)
      → IsResting m.status
      → run_once env mission_id o ≡ (ok m, o)
  unfolding run_once run_loaded ◌>>=◌
  run_once-rests mission_id m o found rest = rw (found, resting m.status rest) refl

  -- The outcome of an event for the mission that it is about.
  record Noted (m : Mission V) (status : MissionStatus)
      (out : Result (Option (Mission V)) × AutonomousOperator W V) : Type 0 where
    mission : Mission V
    result : out.0 ≡ ok (some mission)
    has : mission.status ≡ status
    kept : load m.mission_id out.1.store ≡ ok (some (reread env.through_json mission))

  note_event-Noted :
      (event : AutonomousEvent V) (m : Mission V) (status : MissionStatus)
      (o : AutonomousOperator W V)
      → classify event.type ≡ some status
      → Noted m status (note_event env event (some m) o)
  unfolding note_event save_touched ◌>>=◌
  note_event-Noted event m status o known =
      let n : Mission V = touch (env.stamp o.outside) (record m {
        status = status_after env event.type m.status;
        checkpoint = put "last_event" (env.values.text (type_value event.type)) m.checkpoint;
      }) in
      record {
        mission = n;
        result = refl;
        has = ground (arith, known);
        kept = load-saved env.through_json n o.store;
      }

  process_event-note :
      (event : AutonomousEvent V) (mission_id : String) (m : Mission V)
      (o o1 : AutonomousOperator W V)
      → env.event_handlers ≡ []
      → event.mission_id ≡ some mission_id
      → (if is_takeover env event.type then begin_takeover env o else o) ≡ o1
      → load mission_id o1.store ≡ ok (some m)
      → process_event env event o ≡ note_event env event (some m) o1
  unfolding process_event call_handlers ◌>>=◌
  process_event-note event mission_id m o o1 no_handlers about next found =
      rw (no_handlers, about, next, found) refl

  -- An event of a kind that the detector of blockers knows, without other handlers, gives a mission
  -- its status, whatever status the mission had, and the mission is stored so, its dynamic values as
  -- JSON makes them.
  pub process_event-status :
      (event : AutonomousEvent V) (mission_id : String) (m : Mission V) (status : MissionStatus)
      (o : AutonomousOperator W V)
      → env.event_handlers ≡ []
      → event.mission_id ≡ some mission_id
      → load mission_id o.store ≡ ok (some m)
      → classify event.type ≡ some status
      → let (result, o') = process_event env event o in
        (n : Mission V) × (result ≡ ok (some n))
        × (n.status ≡ status)
        × (load m.mission_id o'.store ≡ ok (some (reread env.through_json n)))
  process_event-status event mission_id m status o no_handlers about found known =
      let o1 = if is_takeover env event.type then begin_takeover env o else o in
      let same =
        process_event-note event mission_id m o o1 no_handlers about refl
          (unchanged (is_takeover env event.type)) in
      let noted : Noted m status (process_event env event o) =
        subst (Noted m status) (sym same) (note_event-Noted event m status o1 known) in
      (noted.mission, noted.result, noted.has, noted.kept)
    where
      unchanged :
          (b : Bool) → load mission_id (if b then begin_takeover env o else o).store ≡ ok (some m)
      unchanged true = found
      unchanged false = found
