-- ===== src/Common/Constructors.antt =====
-- The constructors of options and of results are injective and apart.
use mathlib.Core.Path.{◌≡◌}
use mathlib.Core.Option.{none, some}
use brainless_agent.Common.Actions.{Error, ok, raise}

module _ {ℓ} {A : Type ℓ} where
  pub some-injective : {a b : A} → some a ≡ some b → a ≡ b
  some-injective e = cc

  pub none≢some : {a : A} → none ≡ some a → ⊥
  none≢some e = cc

  pub ok-injective : {a b : A} → ok a ≡ ok b → a ≡ b
  ok-injective e = cc

  pub ok≢raise : {a : A} {e : Error} → raise e ≡ ok a → ⊥
  ok≢raise e = cc
