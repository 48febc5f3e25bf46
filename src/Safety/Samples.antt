-- ===== src/Safety/Samples.antt =====
-- A lease and a wait, and the theorems on them.
use brainless_agent.Common.{
  ◌+◌, ◌≤◌, true, false, ◌&&◌, ◌||◌, ◌==◌, none, some, ◌≡◌, refl, List, [], ◌∷◌, ltb, ok, raise,
  Error, pure, any,
}
use brainless_agent.Common.Dict.{get, keep_values, values}
use brainless_agent.Safety.Leases.{CapabilityLease, grant, permits, prune, microseconds}
use brainless_agent.Safety.Leases.Scope.{is_for, permits-grant}
use brainless_agent.Safety.Controls.{EmergencyStop, UserInterventionGate, Moment, Round, wait}
use brainless_agent.Safety.Controls.Waiting.{continues, stops, wait-answers}

abbrev an_hour : CapabilityLease
an_hour = record {
  lease_id = "l";
  agent_id = "worker";
  permission = "screen.read";
  task_id = "t";
  granted_at = 5;
  expires_at = 3600000005;
}

granted : (grant "l" 5 "worker" "screen.read" "t" 3600 []).0 ≡ ok an_hour
unfolding grant pure
granted = refl

nothing-permits : (permits 9 "worker" "screen.read" (some "t") []).0 ≡ ok false
unfolding permits pure any prune values keep_values
nothing-permits = refl

permits-grant_example :
    ((permits 9 "worker" "screen.read"
        (some "t")
        (grant "l" 5 "worker" "screen.read" "t" 3600 []).1).0
      ≡ ok (
          (("worker" == "worker")
            && (("screen.read" == "screen.read")
                && (is_for (some "t") "t" && ltb 9 (5 + microseconds 3600))))
          || false))
    × (3600 ≤ 86400)
unfolding get
permits-grant_example =
    permits-grant "l" 5 9 "worker" "screen.read" "t" "worker" "screen.read" (some "t") 3600 []
      an_hour false refl granted nothing-permits

abbrev gate : UserInterventionGate
gate = record { ready = true; notified = [] }

abbrev stop : EmergencyStop
stop = record { event = false }

abbrev rounds : List Round
rounds = [] ∷ (Moment.idle ∷ Moment.user_continues ∷ []) ∷ []

wait-answers_example :
    ((wait "look here" rounds (gate, stop)).0 ≡ some (ok tt) → continues rounds ≡ true)
    × ((e : Error)
        → (wait "look here" rounds (gate, stop)).0 ≡ some (raise e)
        → (false || stops rounds) ≡ true)
    × ((wait "look here" rounds (gate, stop)).0 ≡ none
        → (continues rounds ≡ false) × ((false || stops rounds) ≡ false))
wait-answers_example = wait-answers "look here" rounds gate stop
