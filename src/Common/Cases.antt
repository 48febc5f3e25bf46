-- ===== src/Common/Cases.antt =====
-- How to take a `do` block apart at one start state: rules for a property `Q` of the outcome.
use mathlib.Core.Path.{◌≡◌, refl, sym, subst}
use mathlib.Core.Bool.{Bool, true, false}
use brainless_agent.Common.Actions.{
  Exec, Error, Result, ok, raise, throw, require, continue, ◌>>=◌, ◌>>◌,
}

module _ {ℓ κ} {S A B : Type ℓ} (Q : Result B × S → Type κ) where
  continue_cases :
      (r : Result A) (f : A → Exec S B) (s : S)
      → ((a : A) → r ≡ ok a → Q (f a s))
      → ((e : Error) → r ≡ raise e → Q (raise e, s))
      → Q (continue r f s)
  continue_cases (ok a) f s good bad = good a refl
  continue_cases (raise e) f s good bad = bad e refl

  pub bind_cases :
      (m : Exec S A) (f : A → Exec S B) (s : S)
      → ((a : A) → (m s).0 ≡ ok a → Q (f a (m s).1))
      → ((e : Error) → (m s).0 ≡ raise e → Q (raise e, (m s).1))
      → Q ((m >>= f) s)
  unfolding ◌>>=◌
  bind_cases m f s good bad = continue_cases (m s).0 f (m s).1 good bad

  -- The first step leaves the state as it is.
  pub read_cases :
      (m : Exec S A) (f : A → Exec S B) (s : S)
      → (m s).1 ≡ s
      → ((a : A) → (m s).0 ≡ ok a → Q (f a s))
      → ((e : Error) → (m s).0 ≡ raise e → Q (raise e, s))
      → Q ((m >>= f) s)
  read_cases m f s same good bad =
      bind_cases m f s (λ a e. subst (λ t. Q (f a t)) (sym same) (good a e))
        (λ x e. subst (λ t. Q (raise x, t)) (sym same) (bad x e))

-- An action that always raises.
pub record Raises {ℓ} {S A : Type ℓ} (m : Exec S A) : Type ℓ where
  pub error : S → Error
  pub raises : (s : S) → (m s).0 ≡ raise (error s)

pub throw-Raises {ℓ} : {S A : Type ℓ} (e : Error) → Raises (throw {S = S} {A = A} e)
unfolding throw
throw-Raises e = record { error = λ _. e; raises = λ _. refl }

module _ {ℓ κ} {S B : Type ℓ} (Q : Result B × S → Type κ) where
  raised :
      (r : Result (Unit {ℓ})) (e : Error) (f : Unit {ℓ} → Exec S B) (s : S)
      → r ≡ raise e
      → Q (raise e, s)
      → Q (continue r f s)
  raised (ok a) e f s h q = elim (not_ok h) [ ]
    where
      not_ok : ok a ≡ raise e → ⊥
      not_ok p = cc
  raised (raise x) e f s h q = subst (λ r. Q (continue r f s)) (sym h) q

  -- A guard with the code that follows it.
  pub guard_cases :
      (b : Bool) (fail : Exec S (Unit {ℓ})) (k : Exec S B) (s : S) (f : Raises fail)
      → (b ≡ true → Q (k s))
      → (b ≡ false → Q (raise (f.error s), (fail s).1))
      → Q ((require b fail >> k) s)
  unfolding ◌>>=◌
  guard_cases true fail k s f good bad = good refl
  guard_cases false fail k s f good bad =
      raised (fail s).0 (f.error s) (λ _. k) (fail s).1 (f.raises s) (bad refl)
