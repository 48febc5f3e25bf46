-- ===== src/EventSystem/Samples.antt =====
-- An action that fails, and the theorems on the registry at it.
use brainless_agent.Common.{
  contains, subset, ℕ, ◌+◌, String, Bool, true, false, ◌≡◌, ◌≢◌, refl, ◌⊎◌, [], ◌∷◌, arith, pure,
}
use brainless_agent.Common.Dict.{Dict, get, put, keys}
use brainless_agent.EventSystem.Actions.{
  ActionRegistry, ActionSpec, ActionStatus, Attempt, Place, RiskLevel, new_registry, register,
  record_failure, attempts, execute, refusal, finish,
}
use brainless_agent.EventSystem.Actions.Guards.{
  Permitted, Calls, here, registers, executes, execute-guarded, failing-action_rests,
}

abbrev ring : ActionSpec
ring = record {
  action_name = "ring";
  description = "Ring the bell";
  category = "sound";
  required_permissions = "sound.play" ∷ [];
  risk_level = RiskLevel.low;
  input_schema = [];
  output_schema = "object";
  timeout = 30;
  retries = 2;
}

-- The world counts the attempts, which all fail.
abbrev broken : ActionSpec → Dict String → Place ℕ → Attempt String × Place ℕ
broken spec arguments (r, tried) = (Attempt.raised "OSError", (r, tried + 1))

abbrev agree : ActionSpec → Bool
agree spec = true

abbrev ready : ActionRegistry
ready = (register ring (new_registry false)).1

execute-guarded_example :
    ((spec : ActionSpec) × Permitted {V = String} agree spec "ring" [] ("sound.play" ∷ []) ready
      × (execute agree broken "ring" [] ("sound.play" ∷ []) (ready, 0)
          ≡ attempts (broken spec []) "ring" spec.retries (ready, 0)))
    ⊎ (((spec : ActionSpec)
          → ¬ (Permitted {V = String} agree spec "ring" [] ("sound.play" ∷ []) ready))
        × ((execute agree broken "ring" [] ("sound.play" ∷ []) (ready, 0)).1 ≡ (ready, 0))
        × ((execute agree broken "ring" [] ("sound.play" ∷ []) (ready, 0)).0.status
            ≢ ActionStatus.success))
execute-guarded_example = execute-guarded agree broken "ring" [] ("sound.play" ∷ []) ready 0

-- Each call of `broken` leaves the registry as it finds it.
abbrev try : ActionRegistry → ActionRegistry
try r = (execute agree broken "ring" [] ("sound.play" ∷ []) (r, 0)).1.0

abbrev tired : ActionRegistry
tired = try (try (try ready))

tried :
    {r : ActionRegistry}
    → Calls ℕ String (new_registry false) r
    → Calls ℕ String (new_registry false) (try r)
tried c = executes c agree broken "ring" [] ("sound.play" ∷ []) 0 (λ spec p. here)

tired-history : Calls ℕ String (new_registry false) tired
tired-history = tried (tried (tried (registers here ring)))

failing-action_rests_example :
    ((execute agree broken "ring" [] ("sound.play" ∷ []) (tired, 0)).1 ≡ (tired, 0))
    × ((execute agree broken "ring" [] ("sound.play" ∷ []) (tired, 0)).0.status
        ≢ ActionStatus.success)
unfolding register execute refusal attempts finish record_failure get put pure contains subset keys
failing-action_rests_example =
    failing-action_rests tired-history agree broken "ring" [] ("sound.play" ∷ []) 0 3 refl
      (omega arith)
