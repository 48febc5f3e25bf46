-- ===== src/Autonomy/Gates/Retries.antt =====
-- When the recovery retries, and what a contract asks of the state.
use brainless_agent.Common.{
  ℕ, String, Bool, true, false, ◌||◌, ◌≡◌, ◌≢◌, ◌↔◌, refl, inl, inr, arith, Option, [], ◌∷◌, ◌==◌,
  ok, All, contains, Bool-cases,
}
use brainless_agent.Common.Dict.{Dict}
use brainless_agent.Autonomy.Actions.{code_value}
use brainless_agent.Autonomy.Gates.{
  Idempotency, ActionContract, RecoveryStrategy, choose, choose_for, code_of, check_preconditions,
  validate_contract,
}

-- A refusal that only a person can lift.
abbrev pub is_refusal : String → Bool
is_refusal code =
    (code == "PERMISSION_DENIED") || ((code == "POLICY_DENIED") || (code == "APPROVAL_REQUIRED"))

choose_for-authority :
    (code : String) (i : Idempotency) (attempts max_attempts : ℕ)
    → (choose_for code i attempts max_attempts ≡ RecoveryStrategy.retry
        → (is_refusal code ≡ false) × (i ≢ Idempotency.not_safe_to_retry))
      × ((choose_for code i attempts max_attempts ≡ RecoveryStrategy.human_approval)
          ↔ (is_refusal code ≡ true))
unfolding choose_for code_value
choose_for-authority code Idempotency.safe_to_retry attempts max_attempts =
    (λ e. (ground (arith, e), λ s. cc), (λ e. ground (arith, e), λ r. ground (arith, r)))
choose_for-authority code Idempotency.conditionally_retryable attempts max_attempts =
    (λ e. (ground (arith, e), λ s. cc), (λ e. ground (arith, e), λ r. ground (arith, r)))
choose_for-authority code Idempotency.not_safe_to_retry attempts max_attempts =
    (λ e. ground (arith, e), (λ e. ground (arith, e), λ r. ground (arith, r)))

-- `choose` retries only what is no refusal, by the code before the first colon of the error, and is
-- not marked as unsafe to retry; a refusal always goes to a person, and nothing else does.
pub choose-authority :
    (error : Option String) (i : Idempotency) (attempts max_attempts : ℕ)
    → (choose error i attempts max_attempts ≡ RecoveryStrategy.retry
        → (is_refusal (code_of error) ≡ false) × (i ≢ Idempotency.not_safe_to_retry))
      × ((choose error i attempts max_attempts ≡ RecoveryStrategy.human_approval)
          ↔ (is_refusal (code_of error) ≡ true))
unfolding choose
choose-authority error i attempts max_attempts =
    choose_for-authority (code_of error) i attempts max_attempts

module _ {V : Type 0} (same : Option V → V → Bool) (state : String → Option V) where
  check_preconditions-All :
      (conditions : Dict V)
      → (check_preconditions same state conditions ≡ ok tt)
        ↔ All (λ (c : String × V). same (state c.0) c.1 ≡ true) conditions
  unfolding check_preconditions
  check_preconditions-All [] = (λ _. tt, λ _. refl)
  check_preconditions-All ((key, expected) ∷ rest) =
      let others = check_preconditions-All rest in
      (
        λ e. elim (Bool-cases (same (state key) expected)) [
          | inl holds ↦ (holds, others.0 (ground (arith, holds, e)))
          | inr fails ↦ ground (arith, fails, e)
        ],
        λ h. ground (arith, h.0, others.1 h.1),
      )

  -- `ActionContract.validate` passes just when the contract names the permission and each of its
  -- preconditions is what the state shows.
  pub validate_contract-decides :
      (contract : ActionContract V) (permission : String)
      → (validate_contract same state contract permission ≡ ok tt) ↔ (
          (contains permission contract.required_permissions ≡ true)
          × All (λ (c : String × V). same (state c.0) c.1 ≡ true) contract.preconditions)
  unfolding validate_contract
  validate_contract-decides contract permission =
      let conditions = check_preconditions-All contract.preconditions in
      (
        λ e. elim (Bool-cases (contains permission contract.required_permissions)) [
          | inl named ↦ (named, conditions.0 (ground (arith, named, e)))
          | inr unnamed ↦ ground (arith, unnamed, e)
        ],
        λ h. ground (arith, h.0, conditions.1 h.1),
      )
