-- ===== src/Autonomy/Executor/Verified.antt =====
-- A result says success only of an action that was mediated and verified.
use brainless_agent.Common.{Bool, true, ◌≡◌, Result, ok, raise}
use brainless_agent.Autonomy.Actions.{ActionResult}
use brainless_agent.Autonomy.Executor.{Runtime}

-- Where a result says success, `G` holds and the result is verified.
abbrev pub Honest : {W V : Type 0} → Type 0 → Result (ActionResult V) × Runtime W V → Type 0
Honest G (ok result, r) = result.success ≡ true → G × (result.verified ≡ true)
Honest G (raise e, r) = Unit

-- The result has this success, which is also its verification.
abbrev Says : {W V : Type 0} → Bool → Result (ActionResult V) × Runtime W V → Type 0
Says b (ok result, r) = (result.success ≡ b) × (result.verified ≡ b)
Says b (raise e, r) = Unit
