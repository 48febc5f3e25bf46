-- ===== src/Common/Keeps.antt =====
-- Preservation: `m` keeps `P` if it leads from states with `P` to such states, whether it returns
-- or raises. One rule for each way to build an action.
use mathlib.Core.Bool.{Bool, true, false}
use brainless_agent.Common.Tests.{if◌then◌else◌}
use brainless_agent.Common.Actions.{
  Exec, Error, Result, ok, raise, pure, throw, reads, modify_state, require, continue, ◌>>=◌,
}

pub record Keeps {ℓ} {S A : Type ℓ} (P : S → Type ℓ) (m : Exec S A) : Type ℓ where
  pub from : (s : S) → P s → P (m s).1

module _ {ℓ} {S A : Type ℓ} {P : S → Type ℓ} where
  pub Keeps-throw : (e : Error) → Keeps P (throw {A = A} e)
  unfolding throw
  Keeps-throw e = record { from = λ s h. h }

  pub Keeps-pure : (a : A) → Keeps P (pure a)
  unfolding pure
  Keeps-pure a = record { from = λ s h. h }

  pub Keeps-reads : (f : S → Result A) → Keeps P (reads f)
  unfolding reads
  Keeps-reads f = record { from = λ s h. h }

  pub Keeps-if : (b : Bool) (m n : Exec S A) → Keeps P m → Keeps P n → Keeps P (if b then m else n)
  Keeps-if true m n km kn = km
  Keeps-if false m n km kn = kn

pub Keeps-require {ℓ} :
    {S : Type ℓ} {P : S → Type ℓ} (b : Bool) (fail : Exec S (Unit {ℓ}))
    → Keeps P fail
    → Keeps P (require b fail)
unfolding require pure
Keeps-require true fail k = record { from = λ s h. h }
Keeps-require false fail k = k

pub Keeps-modify {ℓ} :
    {S : Type ℓ} {P : S → Type ℓ} (f : S → S) → ((s : S) → P s → P (f s)) → Keeps P (modify_state f)
unfolding modify_state
Keeps-modify f k = record { from = k }

module _ {ℓ} {S A B : Type ℓ} {P : S → Type ℓ} where
  continue_from :
      (r : Result A) (f : A → Exec S B) (s : S)
      → P s
      → ((a : A) → Keeps P (f a))
      → P (continue r f s).1
  continue_from (ok a) f s h k = (k a).from s h
  continue_from (raise e) f s h k = h

  pub Keeps-bind :
      (first : Exec S A) (rest : A → Exec S B) (head : Keeps P first)
      (tail : (a : A) → Keeps P (rest a))
      → Keeps P (first >>= rest)
  unfolding ◌>>=◌
  Keeps-bind first rest head tail = record {
    from = λ s h. continue_from (first s).0 rest (first s).1 (head.from s h) tail;
  }

pub ruleset keeps_rules =
    (Keeps-pure, Keeps-throw, Keeps-reads, Keeps-if, Keeps-require, Keeps-modify, Keeps-bind)
