-- ===== src/Autonomy/Events.antt =====
-- app/autonomy/events.py: the bus that wakes missions. `redact` is that of safety/redaction.py. A
-- `put` waits while the queue is full; here the wait is over when the call is made. `persistence`
-- is `none` where there is none, else the events that it was given.
pub mod Retention
use brainless_agent.Common.{
  ℕ, zero, suc, ◌+◌, String, Bool, true, false, Option, none, some, List, [], ◌∷◌, ◌++◌, ltb, leb,
  length, keep, if◌then◌else◌,
}
use brainless_agent.Common.Dict.{Dict}

pub data EventType : Type 0 where
  user_message screen_changed window_changed browser_navigated : EventType
  file_created file_modified file_deleted process_stopped : EventType
  task_completed task_failed agent_failed deadline_approaching : EventType
  resource_available resource_conflict approval_received time_triggered : EventType
  mission_triggered user_takeover agent_updated action_recorded : EventType
  voice_session voice_partial voice_turn voice_command : EventType
  environment_observed environment_drift ui_detected target_resolved : EventType
  target_resolution_failed human_required perception_source_failed : EventType
  capability_gap capability_discovery_started : EventType

-- `EventType.X.value`
unfoldable pub type_value : EventType → String
type_value user_message = "user_message"
type_value screen_changed = "screen_changed"
type_value window_changed = "window_changed"
type_value browser_navigated = "browser_navigated"
type_value file_created = "file_created"
type_value file_modified = "file_modified"
type_value file_deleted = "file_deleted"
type_value process_stopped = "process_stopped"
type_value task_completed = "task_completed"
type_value task_failed = "task_failed"
type_value agent_failed = "agent_failed"
type_value deadline_approaching = "deadline_approaching"
type_value resource_available = "resource_available"
type_value resource_conflict = "resource_conflict"
type_value approval_received = "approval_received"
type_value time_triggered = "time_triggered"
type_value mission_triggered = "mission_triggered"
type_value user_takeover = "user_takeover"
type_value agent_updated = "agent_updated"
type_value action_recorded = "action_recorded"
type_value voice_session = "voice_session"
type_value voice_partial = "voice_partial"
type_value voice_turn = "voice_turn"
type_value voice_command = "voice_command"
type_value environment_observed = "environment_observed"
type_value environment_drift = "environment_drift"
type_value ui_detected = "ui_detected"
type_value target_resolved = "target_resolved"
type_value target_resolution_failed = "target_resolution_failed"
type_value human_required = "human_required"
type_value perception_source_failed = "perception_source_failed"
type_value capability_gap = "capability_gap"
type_value capability_discovery_started = "capability_discovery_started"

pub record AutonomousEvent (V : Type 0) : Type 0 where
  pub type : EventType
  pub mission_id : Option String
  pub detail : Dict V
  pub timestamp : ℕ
  pub correlation_id : String
  pub sequence : ℕ

pub record AutonomousEventBus (V : Type 0) : Type 0 where
  pub retention : ℕ
  pub queue : List (AutonomousEvent V)
  pub history : List (AutonomousEvent V)
  pub persistence : Option (List (AutonomousEvent V))
  pub sequence : ℕ

abbrev drop_first : {A : Type 0} → List A → List A
drop_first [] = []
drop_first (x ∷ xs) = xs

-- `append` of a `deque` with `maxlen`
unfoldable pub append_bounded : {A : Type 0} → ℕ → List A → A → List A
append_bounded maxlen xs x =
    if leb maxlen (length xs) then drop_first (xs ++ x ∷ []) else xs ++ x ∷ []

abbrev last_sequence : {V : Type 0} → List (AutonomousEvent V) → ℕ
last_sequence [] = 0
last_sequence (e ∷ []) = e.sequence
last_sequence (e ∷ f ∷ rest) = last_sequence (f ∷ rest)

-- `self.history.extend(restored)`
unfoldable pub extend_bounded : {A : Type 0} → ℕ → List A → List A → List A
unfolding append_bounded
extend_bounded maxlen xs [] = xs
extend_bounded maxlen xs (y ∷ ys) = extend_bounded maxlen (append_bounded maxlen xs y) ys

-- `AutonomousEventBus(retention, persistence)` with what `persistence.recent(retention)` returns
unfoldable pub new_bus :
    {V : Type 0} (retention : ℕ) (persistence : Option (List (AutonomousEvent V)))
    (restored : List (AutonomousEvent V))
    → AutonomousEventBus V
unfolding extend_bounded
new_bus retention persistence restored = record {
  retention = retention;
  queue = [];
  history = extend_bounded retention [] restored;
  persistence = persistence;
  sequence = last_sequence restored;
}

abbrev stored : {A : Type 0} → A → Option (List A) → Option (List A)
stored item none = none
stored item (some items) = some (items ++ item ∷ [])

-- `replace(event, detail=redact(event.detail), sequence=...)`
abbrev pub numbered :
    {V : Type 0} (redact : Dict V → Dict V) → ℕ → AutonomousEvent V → AutonomousEvent V
numbered redact sequence event = record event { detail = redact event.detail; sequence = sequence }

unfoldable pub publish :
    {V : Type 0} (redact : Dict V → Dict V) (event : AutonomousEvent V)
    → AutonomousEventBus V
    → AutonomousEventBus V
unfolding append_bounded
publish redact event bus =
    let recorded = numbered redact (bus.sequence + 1) event in
    record bus {
      queue = bus.queue ++ recorded ∷ [];
      history = append_bounded bus.retention bus.history recorded;
      persistence = stored recorded bus.persistence;
      sequence = bus.sequence + 1;
    }

-- `xs[:n]`
unfoldable pub take : {A : Type 0} → ℕ → List A → List A
take zero xs = []
take (suc n) [] = []
take (suc n) (x ∷ xs) = x ∷ take n xs

unfoldable pub replay :
    {V : Type 0} (since limit : ℕ) → AutonomousEventBus V → List (AutonomousEvent V)
unfolding take
replay since limit bus =
    take (if ltb 1000 limit then 1000 else limit) (keep (λ e. ltb since e.sequence) bus.history)

-- `next`: the oldest event of the queue; `none` if there is none until the timeout.
abbrev pub next_event :
    {V : Type 0} → AutonomousEventBus V → Option (AutonomousEvent V) × AutonomousEventBus V
next_event bus = elim bus.queue [
  | [] ↦ (none, bus)
  | event ∷ rest ↦ (some event, record bus { queue = rest })
]
