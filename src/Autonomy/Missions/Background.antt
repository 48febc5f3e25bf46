-- ===== src/Autonomy/Missions/Background.antt =====
-- app/autonomy/operator.py: the missions that are resumed, and the turns in the background.
use text.Mathlib.Text.{is_lt}
use Prim.Native.String.{compare}
use brainless_agent.Common.{
  Bool, Option, none, some, List, [], ◌∷◌, if◌then◌else◌, ok, Exec, pure, reads, modify_state,
  ◌>>=◌, ◌>>◌, ◌&&◌, ◌||◌, int_lt, int_eq,
}
use brainless_agent.Common.Dict.{values}
use brainless_agent.Autonomy.Events.{AutonomousEvent, next_event}
use brainless_agent.Autonomy.Missions.{MissionStatus, Mission, save, active}
use brainless_agent.Autonomy.Missions.Operator.{
  OperatorWorld, AutonomousOperator, run_once, process_event,
}

module _ {W V : Type 0} (env : OperatorWorld W V) where
  -- The loop of `resume_active` over the missions that are active.
  unfoldable pub resume_all : List (Mission V) → Exec (AutonomousOperator W V) (List (Mission V))
  unfolding run_once save
  resume_all [] = pure []
  resume_all (m ∷ ms) = do
    modify_state (λ o. record o {
      store = save env.through_json (record m { status = MissionStatus.waiting }) o.store;
    })
    resumed ← run_once env m.mission_id
    rest ← resume_all ms
    pure (resumed ∷ rest)

  unfoldable pub resume_active : Exec (AutonomousOperator W V) (List (Mission V))
  unfolding resume_all active
  resume_active = do missions ← reads (λ o. active (values o.store)); resume_all missions

  -- The key of `sorted` in `run_background`: `(-priority, created_at)`
  abbrev before : Mission V → Mission V → Bool
  before m n =
      int_lt n.priority m.priority
      || (int_eq n.priority m.priority && is_lt (compare m.created_at n.created_at))

  unfoldable pub insert_mission : Mission V → List (Mission V) → List (Mission V)
  insert_mission m [] = m ∷ []
  insert_mission m (n ∷ ns) = if before n m then n ∷ insert_mission m ns else m ∷ n ∷ ns

  unfoldable pub sort_missions : List (Mission V) → List (Mission V)
  unfolding insert_mission
  sort_missions [] = []
  sort_missions (m ∷ ms) = insert_mission m (sort_missions ms)

  unfoldable pub run_all : List (Mission V) → Exec (AutonomousOperator W V) Unit
  unfolding run_once
  run_all [] = pure tt
  run_all (m ∷ ms) = do run_once env m.mission_id; run_all ms

  -- `event = await self.events.next(idle_seconds)`
  unfoldable pub take_event : Exec (AutonomousOperator W V) (Option (AutonomousEvent V))
  take_event o =
      let (event, events) = next_event o.events in (ok event, record o { events = events })

  abbrev process_if : Option (AutonomousEvent V) → Exec (AutonomousOperator W V) Unit
  process_if none = pure tt
  process_if (some event) = process_event env event >> pure tt

  -- The body of the loop of `run_background`
  unfoldable pub background_round : Exec (AutonomousOperator W V) Unit
  unfolding sort_missions run_all take_event process_event active
  background_round = do
    missions ← reads (λ o. active (values o.store))
    run_all (sort_missions missions)
    event ← take_event
    process_if event
