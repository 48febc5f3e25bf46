-- ===== src/Runtime/Samples.antt =====
-- An operation that always fails, run with recovery.
use brainless_agent.Common.{ℕ, ◌+◌, ◌≤◌, String, true, ◌≡◌, refl, ok, raise, Error, external, Exec}
use brainless_agent.Runtime.Managers.{ActionManager, is_exception, run}
use brainless_agent.Runtime.Bounds.{counted, beside, run-attempts}

abbrev failing : Exec ℕ String
failing s = (raise (external "page crashed"), s)

abbrev reload : Exec ℕ (Unit {0})
reload s = (ok tt, s + 1)

run-attempts_example :
    let out = run 2 (counted failing) (beside reload) (0, 0) in
    (1 ≤ out.1.1)
    × (out.1.1 ≤ 2 + 1)
    × ((e : Error) → out.0 ≡ raise e → is_exception e ≡ true → out.1.1 ≡ 2 + 1)
run-attempts_example = run-attempts failing reload (λ s. refl) 2 0

abbrev digits : ℕ → String
digits n = "a number"

abbrev nearly_done : ActionManager
nearly_done = record { max_actions = 3; count = 3 }
