-- ===== src/Runtime/Bounds.antt =====
-- How often a recovered operation runs, and how many actions a run may take.
use brainless_agent.Common.{
  ℕ, zero, suc, ◌+◌, ◌≤◌, ◌<◌, ◌↔◌, String, Bool, true, false, ◌≡◌, refl, ◌∙◌, ap, sym, arith,
  Result, ok, raise, Error, Exec, pure, throw, false≢true,
}
use brainless_agent.Runtime.Managers.{ActionManager, record_action, is_exception, run_left, run}

-- The operation with a count of its runs beside its state, and the recovery likewise.
abbrev pub counted : {S A : Type 0} → Exec S A → Exec (S × ℕ) A
counted m (s, n) = ((m s).0, ((m s).1, n + 1))

abbrev pub beside : {S A : Type 0} → Exec S A → Exec (S × ℕ) A
beside m (s, n) = ((m s).0, ((m s).1, n))

-- One turn of the loop.
run_left-cases :
    {S : Type 0} (operation : Exec S String) (recover : Exec S Unit) (left : ℕ) (s : S)
    (Q : Result String × S → Type 0)
    → ((answer : String) → (operation s).0 ≡ ok answer → Q (ok answer, (operation s).1))
    → ((e : Error)
        → (operation s).0 ≡ raise e
        → is_exception e ≡ false
        → Q (raise e, (operation s).1))
    → ((x : Error)
        → (recover (operation s).1).0 ≡ raise x
        → Q (raise x, (recover (operation s).1).1))
    → Q (run_left operation recover left (recover (operation s).1).1)
    → Q (run_left operation recover (suc left) s)
unfolding run_left
run_left-cases operation recover left s Q good passed stuck again = go (operation s).0 refl
  where
    recovered :
        (r : Result (Unit {0}))
        → (recover (operation s).1).0 ≡ r
        → Q (elim r [
          | ok u ↦ run_left operation recover left (recover (operation s).1).1
          | raise x ↦ (raise x, (recover (operation s).1).1)
        ])
    recovered (ok u) h = again
    recovered (raise x) h = stuck x h

    caught :
        (e : Error) (b : Bool)
        → (operation s).0 ≡ raise e
        → is_exception e ≡ b
        → Q (elim b [
          | false ↦ (raise e, (operation s).1)
          | true ↦ elim (recover (operation s).1).0 [
            | ok u ↦ run_left operation recover left (recover (operation s).1).1
            | raise x ↦ (raise x, (recover (operation s).1).1)
          ]
        ])
    caught e false h k = passed e h k
    caught e true h k = recovered (recover (operation s).1).0 refl

    go :
        (r : Result String)
        → (operation s).0 ≡ r
        → Q (elim r [
          | ok answer ↦ (ok answer, (operation s).1)
          | raise e ↦ elim (is_exception e) [
            | false ↦ (raise e, (operation s).1)
            | true ↦ elim (recover (operation s).1).0 [
              | ok u ↦ run_left operation recover left (recover (operation s).1).1
              | raise x ↦ (raise x, (recover (operation s).1).1)
            ]
          ]
        ])
    go (ok answer) h = good answer h
    go (raise e) h = caught e (is_exception e) h refl

ok≢raise : {A : Type 0} {a : A} {e : Error} → ok a ≡ raise e → ⊥
ok≢raise h = cc

raise-injective : {A : Type 0} {e x : Error} → ◌≡◌ {A = Result A} (raise e) (raise x) → e ≡ x
raise-injective h = cc

module _ {S : Type 0} (operation : Exec S String) (recover : Exec S Unit) where
  run_left-counts :
      (left n : ℕ) (s : S)
      → let out = run_left (counted operation) (beside recover) left (s, n) in
        (n + 1 ≤ out.1.1) × (out.1.1 ≤ n + 1 + left)
  unfolding run_left
  run_left-counts zero n s = (omega arith, omega arith)
  run_left-counts (suc left) n s =
      run_left-cases (counted operation) (beside recover) left (s, n)
        (λ out. (n + 1 ≤ out.1.1) × (out.1.1 ≤ n + 1 + suc left))
        (λ _ _. (omega arith, omega arith)) (λ _ _ _. (omega arith, omega arith))
        (λ _ _. (omega arith, omega arith))
        (let h = run_left-counts left (n + 1) (recover (operation s).1).1 in
          (omega (arith, h.0), omega (arith, h.1)))

  run_left-exhausts :
      ((s : S) → (recover s).0 ≡ ok tt)
      → (left n : ℕ) (s : S) (e : Error)
      → let out = run_left (counted operation) (beside recover) left (s, n) in
        out.0 ≡ raise e → is_exception e ≡ true → out.1.1 ≡ n + 1 + left
  unfolding run_left
  run_left-exhausts steady zero n s e = λ h k. omega arith
  run_left-exhausts steady (suc left) n s e =
      run_left-cases (counted operation) (beside recover) left (s, n)
        (λ out. out.0 ≡ raise e → is_exception e ≡ true → out.1.1 ≡ n + 1 + suc left)
        (λ answer _ h. absurd (ok≢raise h))
        (λ x _ passes h k.
          absurd (false≢true (sym passes ∙ ap is_exception (raise-injective h) ∙ k)))
        (λ x failing h k. absurd (ok≢raise (sym (steady (operation s).1) ∙ failing)))
        (λ h k.
          omega (arith, run_left-exhausts steady left (n + 1) (recover (operation s).1).1 e h k))

  -- Where the recovery never fails, `RecoveryManager.run` runs its operation at least once and at
  -- most once more than its retries; if `run` raises an exception, the operation has run that
  -- often.
  pub run-attempts :
      ((s : S) → (recover s).0 ≡ ok tt)
      → (max_retries : ℕ) (s : S)
      → let out = run max_retries (counted operation) (beside recover) (s, 0) in
        (1 ≤ out.1.1)
        × (out.1.1 ≤ max_retries + 1)
        × ((e : Error) → out.0 ≡ raise e → is_exception e ≡ true → out.1.1 ≡ max_retries + 1)
  unfolding run
  run-attempts steady max_retries s =
      let h = run_left-counts max_retries 0 s in
      (
        omega (arith, h.0),
        omega (arith, h.1),
        λ e raised is. omega (arith, run_left-exhausts steady max_retries 0 s e raised is),
      )

-- `ActionManager.record` lets an action through just while fewer than `max_actions` are counted,
-- and so never counts more.
pub record_action-bounds :
    (str : ℕ → String) (description : String) (manager : ActionManager)
    → manager.count ≤ manager.max_actions
    → ((record_action str description manager).1.count ≤ manager.max_actions)
      × (((record_action str description manager).0 ≡ ok tt)
          ↔ (manager.count < manager.max_actions))
unfolding record_action pure throw
record_action-bounds str description manager within =
    (ground (arith, within), (λ e. ground (arith, e), λ few. ground (arith, few)))
