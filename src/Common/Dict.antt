-- ===== src/Common/Dict.antt =====
-- Python's `dict` with text keys, as the list of its entries in order of insertion: a new value
-- for a key that is there takes the place of the old one. The functions are used by their laws.
use Prim.Native.String.{String}
use mathlib.Core.Path.{◌≡◌, refl, ◌∙◌, subst}
use mathlib.Core.Logic.{◌⊎◌, inl, inr}
use mathlib.Core.Bool.{Bool, false}
use mathlib.Core.Option.{Option, none, some}
use mathlib.Core.Option
use mathlib.Core.List.{List, [], ◌∷◌}
use native.Mathlib.Omega.{arith}
use text.Mathlib.Text.{◌==◌}
use text.Mathlib.TextEquality.{eq_iff}
use brainless_agent.Common.Tests.{if◌then◌else◌, is_some, Bool-cases, Option-cases}
use brainless_agent.Common.Lists.{any, All}
use brainless_agent.Common.Sets.{contains}

abbrev pub Dict {ℓ} : Type ℓ → Type ℓ
Dict V = List (String × V)

module _ {ℓ} {V : Type ℓ} where
  -- `d.get(k)`
  unfoldable pub get : String → Dict V → Option V
  get k [] = none
  get k ((j, v) ∷ d) = if j == k then some v else get k d

  -- `k in d`
  abbrev pub has : String → Dict V → Bool
  has k d = is_some (get k d)

  -- `d[k] = v`
  unfoldable pub put : String → V → Dict V → Dict V
  put k v [] = (k, v) ∷ []
  put k v ((j, w) ∷ d) = if j == k then (j, v) ∷ d else (j, w) ∷ put k v d

  -- `d.pop(k, None)`
  unfoldable pub pop : String → Dict V → Dict V
  pop k [] = []
  pop k ((j, v) ∷ d) = if j == k then pop k d else (j, v) ∷ pop k d

  -- The object at `k` changed in place.
  unfoldable pub modify : String → (V → V) → Dict V → Dict V
  modify k f [] = []
  modify k f ((j, v) ∷ d) = if j == k then (j, f v) ∷ d else (j, v) ∷ modify k f d

  -- `d.keys()`
  unfoldable pub keys : Dict V → List String
  keys [] = []
  keys ((j, v) ∷ d) = j ∷ keys d

  -- `d.values()`
  unfoldable pub values : Dict V → List V
  values [] = []
  values ((j, v) ∷ d) = v ∷ values d

  pub get-put :
      (k j : String) (v : V) (d : Dict V) → get j (put k v d) ≡ (if k == j then some v else get j d)
  unfolding get put
  get-put k j v [] = refl
  get-put k j v ((i, w) ∷ d) = ground (arith, eq_iff k j, eq_iff i k, eq_iff i j, get-put k j v d)

  pub get-pop : (k j : String) (d : Dict V) → get j (pop k d) ≡ (if k == j then none else get j d)
  unfolding get pop
  get-pop k j [] = ground arith
  get-pop k j ((i, w) ∷ d) = ground (arith, eq_iff k j, eq_iff i k, eq_iff i j, get-pop k j d)

  pub get-modify :
      (k j : String) (f : V → V) (d : Dict V)
      → get j (modify k f d) ≡ (if k == j then Option.map f (get j d) else get j d)
  unfolding get modify
  get-modify k j f [] = ground arith
  get-modify k j f ((i, w) ∷ d) =
      ground (arith, eq_iff k j, eq_iff i k, eq_iff i j, get-modify k j f d)

  -- `{k: v for k, v in d.items() if p(v)}`
  unfoldable pub keep_values : (V → Bool) → Dict V → Dict V
  keep_values p [] = []
  keep_values p ((j, v) ∷ d) = if p v then (j, v) ∷ keep_values p d else keep_values p d

-- What a look-up after a change in place says of the dictionary before, and the other way round.
module _ {ℓ} {V : Type ℓ} (k : String) (f : V → V) (d : Dict V) where
  pub get-modify_back :
      (j : String) {w : V}
      → get j (modify k f d) ≡ some w
      → (v : V) × (get j d ≡ some v) × ((k ≡ j) × (w ≡ f v) ⊎ (w ≡ v))
  get-modify_back j e = elim (Option-cases (get j d)) [
    | inl absent ↦ ground (arith, get-modify k j f d, absent)
    | inr (v, found) ↦ (v, found, ground (arith, get-modify k j f d, eq_iff k j, found))
  ]

  pub get-modify_forth :
      (j : String) {v : V}
      → get j d ≡ some v
      → (w : V) × (get j (modify k f d) ≡ some w) × ((k ≡ j) × (w ≡ f v) ⊎ (w ≡ v))
  get-modify_forth j {v} e = elim (Bool-cases (k == j)) [
    | inl same ↦ (f v, get-modify k j f d ∙ rw (same, e), inl ((eq_iff k j).0 same, refl))
    | inr other ↦ (v, get-modify k j f d ∙ rw (other, e), inr refl)
  ]

module _ {ℓ} {V : Type ℓ} where
  -- A test that no value passes fails at every key.
  pub any-values :
      (p : V → Bool) (k : String) (v : V) (d : Dict V)
      → any (values d) p ≡ false
      → get k d ≡ some v
      → p v ≡ false
  unfolding any values get
  any-values p k v [] h e = ground arith
  any-values p k v ((j, w) ∷ d) h e = ground (arith, any-values p k v d)

  pub keep_values_idem :
      (p : V → Bool) (d : Dict V) → keep_values p (keep_values p d) ≡ keep_values p d
  unfolding keep_values
  keep_values_idem p [] = refl
  keep_values_idem p ((j, w) ∷ d) = ground (arith, keep_values_idem p d)

  pub contains-keys : (k : String) (d : Dict V) → contains k (keys d) ≡ has k d
  unfolding contains keys get
  contains-keys k [] = refl
  contains-keys k ((j, w) ∷ d) = ground (arith, eq_iff k j, eq_iff j k, contains-keys k d)

  pub All-values {κ} :
      (P : V → Type κ) (k : String) (v : V) (d : Dict V) → All P (values d) → get k d ≡ some v → P v
  unfolding values get
  All-values P k v ((j, w) ∷ d) ps e = elim (Bool-cases (j == k)) [
    | inl here ↦ subst P (found (ground (arith, here, e))) ps.0
    | inr there ↦ All-values P k v d ps.1 (ground (arith, there, e))
  ]
    where
      found : some w ≡ some v → w ≡ v
      found h = cc
  All-values P k v [] ps e = absurd (cc)
