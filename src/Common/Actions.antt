-- ===== src/Common/Actions.antt =====
-- Exceptions of the source as values, and methods that mutate an object and may raise. What was
-- written before a raise stays written, so the state comes back beside the error too.
use Prim.Native.String.{String}
use mathlib.Core.Bool.{Bool, true, false}

-- The exception classes that the modelled code raises, with their arguments. `external` is any
-- other exception that comes out of code handed in, by the text `str(error)`.
pub data Error : Type 0 where
  value_error : String → Error
  key_error : String → Error
  type_error : String → Error
  runtime_error : String → Error
  permission_denied : (agent_id permission reason : String) → Error
  approval_needed : (agent_id permission reason : String) → Error
  cancelled : Error
  emergency_stop_requested : String → Error
  action_limit_exceeded : String → Error
  proposal_rejected : String → Error
  resource_busy : String → Error
  timeout_error : String → Error
  error_detail : (code message : String) → Error
  external : String → Error

pub data Result {ℓ} (A : Type ℓ) : Type ℓ where
  ok : A → Result A
  raise : Error → Result A

abbrev pub Exec {ℓ} : Type ℓ → Type ℓ → Type ℓ
Exec S A = S → Result A × S

module _ {ℓ} {S A : Type ℓ} where
  unfoldable pub pure : A → Exec S A
  pure a s = (ok a, s)

  unfoldable pub throw : Error → Exec S A
  throw e s = (raise e, s)

  -- A read of the state that may raise.
  unfoldable pub reads : (S → Result A) → Exec S A
  reads f s = (f s, s)

unfoldable pub modify_state {ℓ} : {S : Type ℓ} → (S → S) → Exec S (Unit {ℓ})
modify_state f s = (ok tt, f s)

-- `if not test: <code that raises>`
unfoldable pub require {ℓ} : {S : Type ℓ} → Bool → Exec S (Unit {ℓ}) → Exec S (Unit {ℓ})
unfolding pure
require true fail = pure tt
require false fail = fail

module _ {ℓ} {S A B : Type ℓ} where
  abbrev pub continue : Result A → (A → Exec S B) → Exec S B
  continue (ok a) f s = f a s
  continue (raise e) f s = (raise e, s)

  infixl 5 ◌>>=◌ ◌>>◌
  -- Unfolding this unfolds the other actions too.
  unfoldable pub ◌>>=◌ : Exec S A → (A → Exec S B) → Exec S B
  unfolding pure throw reads modify_state require
  ◌>>=◌ m f s = let (r, s') = m s in continue r f s'

  abbrev pub ◌>>◌ : Exec S A → Exec S B → Exec S B
  ◌>>◌ m n = m >>= λ _. n
