-- ===== src/Autonomy/Executor/Bounds.antt =====
-- How many results the loop of observation, decision and action can return.
use brainless_agent.Common.{
  ℕ, zero, suc, ◌+◌, ◌*◌, ◌≤◌, String, Bool, true, false, Option, none, some, ◌≡◌, subst, List, [],
  ◌∷◌, ◌++◌, arith, length, length-append, Result, ok, raise, Exec, pure, throw, error_detail,
  if◌then◌else◌, ltb, ok-injective, ok≢raise,
}
use brainless_agent.Common.Cases.{bind_cases}
use brainless_agent.Autonomy.Actions.{ActionResult, ErrorCode, code_value}
use brainless_agent.Autonomy.Gates.{ActionContract}
use brainless_agent.Autonomy.Proposals.{ActionProposal}
use brainless_agent.Autonomy.Executor.{
  Runtime, Environment, AutonomyLimits, limit_or, recover, retry_if, act_on, one_round, next_round,
  loop_steps, run_loop, count_failures,
}

-- The results that a round leaves are at most `n`.
abbrev Few : {W V : Type 0} → ℕ → Result (List (ActionResult V) × ℕ) × Runtime W V → Type 0
Few n (ok (results, failures), r) = length results ≤ n
Few n (raise e, r) = Unit

abbrev FewSome :
    {W V : Type 0} → ℕ → Result (Option (List (ActionResult V) × ℕ)) × Runtime W V → Type 0
FewSome n (ok (some (results, failures)), r) = length results ≤ n
FewSome n (ok none, r) = Unit
FewSome n (raise e, r) = Unit

abbrev FewAll : {W V : Type 0} → ℕ → Result (List (ActionResult V)) × Runtime W V → Type 0
FewAll n (ok results, r) = length results + 2 ≤ n
FewAll n (raise e, r) = Unit

result-Few :
    {W V : Type 0} (n : ℕ) (after : List (ActionResult V) × ℕ)
    (o : Result (List (ActionResult V) × ℕ) × Runtime W V)
    → o.0 ≡ ok after
    → Few n o
    → length after.0 ≤ n
result-Few n after (ok x, r) e h = subst (λ (y : _ × ℕ). length y.0 ≤ n) (ok-injective e) h
result-Few n after (raise x, r) e h = absurd (ok≢raise e)

after-FewSome :
    {W V : Type 0} (n : ℕ) (after : Option (List (ActionResult V) × ℕ))
    (o : Result (Option (List (ActionResult V) × ℕ)) × Runtime W V)
    → o.0 ≡ ok after
    → FewSome n o
    → FewSome n (ok after, o.1)
after-FewSome n after (ok x, r) e h = subst (λ y. FewSome n (ok y, r)) (ok-injective e) h
after-FewSome n after (raise x, r) e h = absurd (ok≢raise e)

weaken-FewAll :
    {W V : Type 0} (n m : ℕ) (o : Result (List (ActionResult V)) × Runtime W V)
    → n ≤ m
    → FewAll n o
    → FewAll m o
weaken-FewAll n m (ok x, r) le h = omega (arith, le, h)
weaken-FewAll n m (raise x, r) le h = tt

results-FewAll :
    {W V : Type 0} (n : ℕ) (results : List (ActionResult V))
    (o : Result (List (ActionResult V)) × Runtime W V)
    → o.0 ≡ ok results
    → FewAll n o
    → length results + 2 ≤ n
results-FewAll n results (ok x, r) e h = subst (λ y. length y + 2 ≤ n) (ok-injective e) h
results-FewAll n results (raise x, r) e h = absurd (ok≢raise e)

module _ {W V : Type 0} (env : Environment W V) (stem : String → String)
    (contains_text : String → String → Bool) (agent_id task_id task : String) where
  retry_if-Few :
      (b : Bool) (proposal : ActionProposal V) (result : ActionResult V)
      (results : List (ActionResult V)) (failures : ℕ) (r : Runtime W V)
      → Few
          (length results + 1)
          (retry_if env stem contains_text b agent_id task_id proposal result results failures r)
  unfolding retry_if pure
  retry_if-Few false proposal result results failures r = omega arith
  retry_if-Few true proposal result results failures r =
      bind_cases (Few (length results + 1)) _ _ _
        (λ state _.
          bind_cases (Few (length results + 1)) _ _ _
            (λ shot _.
              bind_cases (Few (length results + 1)) _ _ _
                (λ retry _. omega (arith, length-append results (retry ∷ []))) (λ e x. tt))
            (λ e x. tt))
        (λ e x. tt)

  recover-Few :
      (proposal : ActionProposal V) (result : ActionResult V) (results : List (ActionResult V))
      (failures : ℕ) (o : Option (ActionContract V)) (b : Bool) (r : Runtime W V)
      → Few
          (length results + 1)
          (recover env stem contains_text agent_id task_id proposal result results failures o b r)
  unfolding recover pure
  recover-Few proposal result results failures none b r = omega arith
  recover-Few proposal result results failures (some contract) true r = omega arith
  recover-Few proposal result results failures (some contract) false r =
      bind_cases (Few (length results + 1)) _ _ _
        (λ u _. retry_if-Few _ proposal result results failures _) (λ e x. tt)

  act_on-Few :
      (results : List (ActionResult V)) (failures : ℕ) (o : Option (ActionProposal V))
      (r : Runtime W V)
      → FewSome
          (length results + 2)
          (act_on env stem contains_text agent_id task_id results failures o r)
  unfolding act_on pure
  act_on-Few results failures none r = tt
  act_on-Few results failures (some proposal) r =
      bind_cases (FewSome (length results + 2)) _ _ _
        (λ result _.
          bind_cases (FewSome (length results + 2)) _ _ _
            (λ contract _.
              bind_cases (FewSome (length results + 2)) _ _ _
                (λ after e. omega (
                  arith,
                  result-Few _ after _ e (
                      recover-Few proposal result (results ++ result ∷ [])
                        (count_failures result failures) contract result.success _),
                  length-append results (result ∷ []),
                ))
                (λ e x. tt))
            (λ e x. tt))
        (λ e x. tt)

  one_round-Few :
      (results : List (ActionResult V)) (failures : ℕ) (r : Runtime W V)
      → FewSome
          (length results + 2)
          (one_round env stem contains_text agent_id task_id task results failures r)
  unfolding one_round
  one_round-Few results failures r =
      bind_cases (FewSome (length results + 2)) _ _ _
        (λ state _.
          bind_cases (FewSome (length results + 2)) _ _ _
            (λ shot _.
              bind_cases (FewSome (length results + 2)) _ _ _
                (λ proposal _. act_on-Few results failures proposal _) (λ e x. tt))
            (λ e x. tt))
        (λ e x. tt)

  loop_steps-Few :
      (max_failures steps : ℕ) (results : List (ActionResult V)) (failures : ℕ) (r : Runtime W V)
      → FewAll (length results + 2 * steps) (
          loop_steps env stem contains_text max_failures agent_id task_id task steps results
            failures r)
  unfolding loop_steps pure throw
  loop_steps-Few max_failures zero results failures r = tt
  loop_steps-Few max_failures (suc steps) results failures r =
      bind_cases (FewAll (length results + 2 * suc steps)) _ _ _
        (λ after e.
          next after _ (loop_steps-Few max_failures steps)
            (after-FewSome (length results + 2) after _ e (one_round-Few results failures r)))
        (λ e x. tt)
    where
      rest : List (ActionResult V) → ℕ → Exec (Runtime W V) (List (ActionResult V))
      rest = loop_steps env stem contains_text max_failures agent_id task_id task steps

      next :
          (after : Option (List (ActionResult V) × ℕ)) (s : Runtime W V)
          → ((rs : List (ActionResult V)) (f : ℕ) (t : Runtime W V)
              → FewAll (length rs + 2 * steps) (rest rs f t))
          → FewSome (length results + 2) (ok after, s)
          → FewAll
              (length results + 2 * suc steps)
              (next_round env stem contains_text max_failures results rest after s)
      next none s ih h = omega arith
      next (some (results', failures')) s ih h = go (ltb max_failures failures')
        where
          go :
              (b : Bool)
              → FewAll (length results + 2 * suc steps) (
                  (if b
                      then throw (
                          error_detail
                            (code_value ErrorCode.action_failed)
                            "Failure budget exhausted")
                      else rest results' failures')
                    s)
          go true = tt
          go false =
              weaken-FewAll (length results' + 2 * steps) (length results + 2 * suc steps)
                (rest results' failures' s) (omega (arith, h)) (ih results' failures' s)

  -- What `run_loop` returns, however the provider, the tools and the people behave: at most two
  -- results, one for the proposal and one for its retry, for each of its `max_steps` rounds but one,
  -- in which the provider proposes nothing; with no rounds it does not return.
  pub run_loop-bounded :
      (limits : AutonomyLimits) (max_steps max_failures : Option ℕ) (r : Runtime W V)
      (results : List (ActionResult V))
      → (run_loop env stem contains_text limits max_steps max_failures agent_id task_id task r).0
        ≡ ok results
      → length results + 2 ≤ 2 * limit_or limits.max_steps max_steps
  unfolding run_loop
  run_loop-bounded limits max_steps max_failures r results e =
      let steps = limit_or limits.max_steps max_steps in
      let failures = limit_or limits.max_recovery_attempts max_failures in
      omega (
        arith,
        results-FewAll (0 + 2 * steps) results
            (loop_steps env stem contains_text failures agent_id task_id task steps [] 0 r) e
            (loop_steps-Few failures steps [] 0 r),
      )
