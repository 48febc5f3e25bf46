-- ===== src/Autonomy/World/Evidence.antt =====
-- What the evidence of causes can say, and what a comparison decides.
use brainless_agent.Common.{
  ℕ, ◌<◌, String, Bool, true, false, not, none, some, ◌≡◌, ◌≢◌, eq_iff, false≢true, refl, sym, ◌∙◌,
  ap, subst, ◌⊎◌, inl, inr, List, [], ◌∷◌, arith, ◌==◌, eq_refl, Bool-cases, All, All-map,
  if◌then◌else◌, ok, raise, pure, throw, all, is_empty, key_error,
}
use brainless_agent.Common.Dict.{Dict, get, pop, get-put, get-pop}
use brainless_agent.Autonomy.World.{Values, WorldSnapshot, WorldFact}
use brainless_agent.Autonomy.World.Model.{
  Prediction, TransitionComparison, CausalEvidence, CausalModel, WorldModel, observe, one_more,
  first_evidence, has_key, confidence_of, predict, compare, differences_from, value_at, learn,
}

-- An effect as expected in each observation, or in none.
pub record IsCertain (e : CausalEvidence) : Type 0 where
  pub seen : 0 < e.observations
  pub certain :
      ((e.observed_effect == e.expected_effect) ≡ true) × (e.supporting ≡ e.observations)
      ⊎ ((e.observed_effect == e.expected_effect) ≡ false) × (e.supporting ≡ 0)

one_more-IsCertain : (e : CausalEvidence) → IsCertain e → IsCertain (one_more e)
one_more-IsCertain e c = record {
  seen = omega arith;
  certain = elim c.certain [
    | inl (same, full) ↦ inl (same, ground (arith, same, full))
    | inr (other, none_) ↦ inr (other, ground (arith, other, none_))
  ];
}

first-IsCertain : (a x o : String) → IsCertain (one_more (first_evidence a x o))
first-IsCertain a x o = record {
  seen = omega arith;
  certain = elim (Bool-cases (o == x)) [
    | inl same ↦ inl (same, ground (arith, same))
    | inr other ↦ inr (other, ground (arith, other))
  ];
}

observe-IsCertain :
    (a x o : String) (causal : CausalModel)
    → All IsCertain causal
    → All IsCertain (observe a x o causal)
unfolding observe
observe-IsCertain a x o [] h = (first-IsCertain a x o, tt)
observe-IsCertain a x o (e ∷ rest) h =
    either (has_key a x o e) (one_more e ∷ rest) (e ∷ observe a x o rest)
      (one_more-IsCertain e h.0, h.1) (h.0, observe-IsCertain a x o rest h.1)
  where
    either :
        (b : Bool) (xs ys : CausalModel)
        → All IsCertain xs
        → All IsCertain ys
        → All IsCertain (if b then xs else ys)
    either true xs ys hx hy = hx
    either false xs ys hx hy = hy

-- `CausalModel` after calls of `observe`, from an empty one.
unfoldable pub observed_all : List (String × String × String) → CausalModel
unfolding observe
observed_all [] = []
observed_all ((a, x, o) ∷ calls) = observe a x o (observed_all calls)

confidence_certain :
    (e : CausalEvidence)
    → IsCertain e
    → (e.observed_effect ≡ e.expected_effect) × (confidence_of e ≡ (e.observations, e.observations))
      ⊎ (e.observed_effect ≢ e.expected_effect) × (confidence_of e ≡ (0, e.observations))
unfolding confidence_of
confidence_certain e c = elim (c.certain) [
  | inl (same, full) ↦ inl ((eq_iff _ _).0 same, ground (arith, c.seen, full))
  | inr (other, none_) ↦
      inr (λ e. false≢true (sym other ∙ (eq_iff _ _).1 e), ground (arith, c.seen, none_))
]

-- Whatever was observed, and however often, each entry of the evidence has an observation at least,
-- and its confidence is one where the effect that it is about is the expected one, with every
-- observation as a support, and zero where it is another, with none.
pub observed_all-certain :
    (calls : List (String × String × String))
    → All
        (λ e.
          (0 < e.observations)
          × ((e.observed_effect ≡ e.expected_effect)
                × (confidence_of e ≡ (e.observations, e.observations))
              ⊎ (e.observed_effect ≢ e.expected_effect) × (confidence_of e ≡ (0, e.observations))))
        (observed_all calls)
unfolding observed_all
observed_all-certain calls =
    All-map (λ e c. (c.seen, confidence_certain e c)) (observed_all calls) (certain calls)
  where
    certain : (calls : List (String × String × String)) → All IsCertain (observed_all calls)
    certain [] = tt
    certain ((a, x, o) ∷ calls) = observe-IsCertain a x o (observed_all calls) (certain calls)

module _ {V : Type 0} (values : Values V) (as_text : V → String) where
  -- What was expected of a field is what was observed of it.
  abbrev pub met : Dict (WorldFact V) → String × V → Bool
  met facts (key, value) = values.same (value_at values as_text facts key) value

  differences-all :
      (facts : Dict (WorldFact V)) (expected : Dict V)
      → is_empty (differences_from values as_text facts expected) ≡ all expected (met facts)
  unfolding differences_from all
  differences-all facts [] = refl
  differences-all facts ((key, value) ∷ rest) = ground (arith, differences-all facts rest)

  abbrev found_outcome : WorldSnapshot V → Prediction V → TransitionComparison V
  found_outcome observed p =
      let differences = differences_from values as_text observed.facts p.expected in
      record {
        prediction = p;
        observed_version = observed.version;
        differences = differences;
        invalidated = not (is_empty differences);
      }

  abbrev model_after : String → WorldSnapshot V → Prediction V → WorldModel V → WorldModel V
  model_after action_id observed p model = record model {
    predictions = pop action_id model.predictions;
    causal =
        learn values as_text action_id p.expected
          (differences_from values as_text observed.facts p.expected) model.causal;
  }

  compare-found :
      (action_id : String) (observed : WorldSnapshot V) (p : Prediction V) (model : WorldModel V)
      → get action_id model.predictions ≡ some p
      → compare values as_text action_id observed model
        ≡ (ok (found_outcome observed p), model_after action_id observed p model)
  unfolding compare pure
  compare-found action_id observed p model e = ground (arith, e)

  compare-absent :
      (action_id : String) (observed : WorldSnapshot V) (model : WorldModel V)
      → get action_id model.predictions ≡ none
      → compare values as_text action_id observed model ≡ (raise (key_error action_id), model)
  unfolding compare throw
  compare-absent action_id observed model e = ground (arith, e)

  -- A comparison right after a prediction, with any snapshot: it returns, it is invalidated just
  -- when some expected value is not the observed one, and the prediction is used up, so that a
  -- second comparison of the action raises `KeyError` and changes nothing.
  pub compare-decides :
      (now : ℕ) (action_id : String) (expected : Dict V) (confidence : ℕ)
      (observed : WorldSnapshot V) (model : WorldModel V)
      → let (prediction, model') = predict now action_id expected confidence model in
        let compared = compare values as_text action_id observed in
        ((c : TransitionComparison V) × ((compared model').0 ≡ ok c)
          × (c.prediction ≡ prediction)
          × (c.invalidated ≡ not (all expected (met observed.facts))))
        × (compared (compared model').1 ≡ (raise (key_error action_id), (compared model').1))
  unfolding predict
  compare-decides now action_id expected confidence observed model =
      let (p, model') = predict now action_id expected confidence model in
      let first =
        compare-found action_id observed p model'
          (get-put action_id action_id p model.predictions ∙ rw (eq_refl action_id) refl) in
      let gone : get action_id (pop action_id model'.predictions) ≡ none =
        get-pop action_id action_id model'.predictions ∙ rw (eq_refl action_id) refl in
      (
        (
          found_outcome observed p,
          ap (λ o. o.0) first,
          refl,
          ap not (differences-all observed.facts expected),
        ),
        subst (λ m. compare values as_text action_id observed m ≡ (raise (key_error action_id), m))
            (sym (ap (λ o. o.1) first))
            (compare-absent action_id observed (model_after action_id observed p model') gone),
      )
