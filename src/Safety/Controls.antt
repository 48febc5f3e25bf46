-- ===== src/Safety/Controls.antt =====
-- app/safety/emergency_stop.py, pause.py and intervention.py: latches that other threads set.
pub mod Waiting
use brainless_agent.Common.{
  String, Bool, true, false, not, List, [], ◌∷◌, ◌++◌, Option, none, some, Result, ok, Exec, pure,
  throw, emergency_stop_requested, if◌then◌else◌,
}

-- A `threading.Event`.
pub record EmergencyStop : Type 0 where
  pub event : Bool

unfoldable pub trigger : EmergencyStop → EmergencyStop
trigger stop = record { event = true }

unfoldable pub clear : EmergencyStop → EmergencyStop
clear stop = record { event = false }

abbrev pub triggered : EmergencyStop → Bool
triggered stop = stop.event

unfoldable pub raise_if_triggered : Exec EmergencyStop Unit
raise_if_triggered stop =
    if triggered stop
    then throw (emergency_stop_requested "Emergency stop requested") stop
    else pure tt stop

pub record PauseController : Type 0 where
  pub resume_event : Bool

abbrev pub new_pause : PauseController
new_pause = record { resume_event = true }

unfoldable pub pause : PauseController → PauseController
pause p = record { resume_event = false }

unfoldable pub resume : PauseController → PauseController
resume p = record { resume_event = true }

unfoldable pub paused : PauseController → Bool
paused p = not p.resume_event

-- What another thread does while `wait_until_resumed` waits.
pub data Toggle : Type 0 where
  pauses resumes : Toggle

abbrev pub toggle : Toggle → PauseController → PauseController
toggle pauses p = pause p
toggle resumes p = resume p

-- `wait_until_resumed` over what happens meanwhile, and what is left of it when the wait is over;
-- `none` says that it still waits after the last of it.
unfoldable pub wait_until_resumed :
    List Toggle → PauseController → Option (List Toggle) × PauseController
unfolding pause resume
wait_until_resumed [] p = if p.resume_event then (some [], p) else (none, p)
wait_until_resumed (t ∷ ts) p =
    let rest = wait_until_resumed ts (toggle t p) in
    if p.resume_event then (some (t ∷ ts), p) else rest

pub record UserInterventionGate : Type 0 where
  pub ready : Bool
  -- the messages handed to `notify`, newest last
  pub notified : List String

unfoldable pub continue_run : UserInterventionGate → UserInterventionGate
continue_run gate = record gate { ready = true }

-- What other threads do between two rounds of the loop in `wait`.
pub data Moment : Type 0 where
  idle : Moment
  user_continues : Moment
  stop_triggered : Moment

unfoldable pub happens :
    Moment → UserInterventionGate × EmergencyStop → UserInterventionGate × EmergencyStop
unfolding continue_run trigger
happens idle (g, s) = (g, s)
happens user_continues (g, s) = (continue_run g, s)
happens stop_triggered (g, s) = (g, trigger s)

-- One `asyncio.sleep` of the loop: the moments that other threads use.
abbrev pub Round : Type 0
Round = List Moment

unfoldable pub happen_all :
    Round → UserInterventionGate × EmergencyStop → UserInterventionGate × EmergencyStop
unfolding happens
happen_all [] now = now
happen_all (m ∷ ms) now = happen_all ms (happens m now)

-- The `while` loop of `UserInterventionGate.wait` over the rounds that the caller lives through;
-- `none` says that it still waits after the last of them.
unfoldable pub wait_loop :
    List Round
    → UserInterventionGate × EmergencyStop
    → Option (Result (Unit {0})) × (UserInterventionGate × EmergencyStop)
unfolding happen_all raise_if_triggered
wait_loop [] (gate, stop) =
    if gate.ready
    then (some (ok tt), (gate, stop))
    else if triggered stop
    then (some (raise_if_triggered stop).0, (gate, stop))
    else (none, (gate, stop))
wait_loop (r ∷ rs) (gate, stop) =
    let rest = wait_loop rs (happen_all r (gate, stop)) in
    if gate.ready
    then (some (ok tt), (gate, stop))
    else if triggered stop
    then (some (raise_if_triggered stop).0, (gate, stop))
    else rest

unfoldable pub wait :
    String
    → List Round
    → UserInterventionGate × EmergencyStop
    → Option (Result (Unit {0})) × (UserInterventionGate × EmergencyStop)
unfolding wait_loop
wait message rounds (gate, stop) =
    wait_loop rounds (record { ready = false; notified = gate.notified ++ message ∷ [] }, stop)

-- `ConsoleInterventionGate.wait`: what happens until the user presses Enter, and the check of the
-- emergency stop then. The latch of the gate has no part in it.
unfoldable pub wait_console :
    Round
    → UserInterventionGate × EmergencyStop
    → Result (Unit {0}) × (UserInterventionGate × EmergencyStop)
unfolding happen_all raise_if_triggered
wait_console until_enter now =
    let (gate, stop) = happen_all until_enter now in ((raise_if_triggered stop).0, (gate, stop))
