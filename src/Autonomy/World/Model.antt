-- ===== src/Autonomy/World/Model.antt =====
-- app/autonomy/world_model.py: predictions of actions, their comparison with what was observed, and
-- the evidence of causes. An entry of the evidence holds the three texts of its key. A confidence
-- of evidence is a fraction, as numerator and denominator. `as_text` is `str`.
use brainless_agent.Common.{
  ℕ, nat_eq, ◌+◌, String, Bool, not, ◌&&◌, ◌==◌, none, some, List, [], ◌∷◌, if◌then◌else◌, is_empty,
  Exec, pure, throw, key_error,
}
use brainless_agent.Common.Dict.{Dict, get, put, pop, values}
use brainless_agent.Autonomy.World.{
  Values, WorldFact, WorldSnapshot, WorldState, snapshot, fact_values, clamp,
}

pub record Prediction (V : Type 0) : Type 0 where
  pub action_id : String
  pub before_version : ℕ
  pub expected : Dict V
  pub confidence : ℕ

pub record TransitionComparison (V : Type 0) : Type 0 where
  pub prediction : Prediction V
  pub observed_version : ℕ
  pub differences : Dict (V × V)
  pub invalidated : Bool

pub record CausalEvidence : Type 0 where
  pub action_type : String
  pub expected_effect : String
  pub observed_effect : String
  pub observations : ℕ
  pub supporting : ℕ

-- `CausalEvidence.confidence`
unfoldable pub confidence_of : CausalEvidence → ℕ × ℕ
confidence_of evidence =
    if nat_eq evidence.observations 0 then (0, 1) else (evidence.supporting, evidence.observations)

abbrev pub CausalModel : Type 0
CausalModel = List CausalEvidence

abbrev pub has_key : (action_type expected observed : String) → CausalEvidence → Bool
has_key action_type expected observed e =
    (e.action_type == action_type)
    && (e.expected_effect == expected)
    && (e.observed_effect == observed)

abbrev pub one_more : CausalEvidence → CausalEvidence
one_more e = record e {
  observations = e.observations + 1;
  supporting = if e.observed_effect == e.expected_effect then e.supporting + 1 else e.supporting;
}

abbrev pub first_evidence : (action_type expected observed : String) → CausalEvidence
first_evidence action_type expected observed = record {
  action_type = action_type;
  expected_effect = expected;
  observed_effect = observed;
  observations = 0;
  supporting = 0;
}

-- `CausalModel.observe`: `setdefault`, then the two counters.
unfoldable pub observe : (action_type expected observed : String) → CausalModel → CausalModel
observe action_type expected observed [] =
    one_more (first_evidence action_type expected observed) ∷ []
observe action_type expected observed (e ∷ rest) =
    if has_key action_type expected observed e
    then one_more e ∷ rest
    else e ∷ observe action_type expected observed rest

pub record WorldModel (V : Type 0) : Type 0 where
  pub state : WorldState V
  pub causal : CausalModel
  pub predictions : Dict (Prediction V)

-- `self.state.snapshot()`
unfoldable pub model_snapshot : {V : Type 0} → ℕ → WorldModel V → WorldSnapshot V × WorldModel V
unfolding snapshot
model_snapshot now model =
    let (shot, state) = snapshot now model.state in (shot, record model { state = state })

unfoldable pub predict :
    {V : Type 0} (now : ℕ) (action_id : String) (expected : Dict V) (confidence : ℕ)
    → WorldModel V
    → Prediction V × WorldModel V
unfolding model_snapshot
predict {V} now action_id expected confidence model =
    let (shot, model') = model_snapshot now model in
    let prediction : Prediction V = record {
      action_id = action_id;
      before_version = shot.version;
      expected = expected;
      confidence = clamp confidence;
    } in
    (prediction, record model' { predictions = put action_id prediction model'.predictions })

module _ {V : Type 0} (values : Values V) (as_text : V → String) where
  -- `observed.values().get(key)`
  abbrev pub value_at : Dict (WorldFact V) → String → V
  value_at facts key = elim (get key (fact_values facts)) [
    | none ↦ values.nothing
    | some value ↦ value
  ]

  -- The comprehension `differences` of `compare`
  unfoldable pub differences_from : Dict (WorldFact V) → Dict V → Dict (V × V)
  unfolding fact_values
  differences_from facts [] = []
  differences_from facts ((key, value) ∷ rest) =
      if values.same (value_at facts key) value
      then differences_from facts rest
      else (key, (value, value_at facts key)) ∷ differences_from facts rest

  -- The two loops of `compare` over the causal model
  unfoldable pub observe_differences : String → Dict (V × V) → CausalModel → CausalModel
  unfolding observe
  observe_differences action_id [] causal = causal
  observe_differences action_id ((key, (expected, actual)) ∷ rest) causal =
      observe_differences action_id rest
        (observe action_id (as_text expected) (as_text actual) causal)

  unfoldable pub observe_expected : String → Dict V → CausalModel → CausalModel
  unfolding observe
  observe_expected action_id [] causal = causal
  observe_expected action_id ((key, value) ∷ rest) causal =
      observe_expected action_id rest (observe action_id (as_text value) (as_text value) causal)

  abbrev pub learn : String → Dict V → Dict (V × V) → CausalModel → CausalModel
  learn action_id expected [] causal = observe_expected action_id expected causal
  learn action_id expected (d ∷ ds) causal = observe_differences action_id (d ∷ ds) causal

  unfoldable pub compare :
      (action_id : String) (observed : WorldSnapshot V)
      → Exec (WorldModel V) (TransitionComparison V)
  unfolding differences_from observe_differences observe_expected
  compare action_id observed model = elim (get action_id model.predictions) [
    | none ↦ throw (key_error action_id) model
    | some prediction ↦
        let differences = differences_from observed.facts prediction.expected in
        pure
          (record {
            prediction = prediction;
            observed_version = observed.version;
            differences = differences;
            invalidated = not (is_empty differences);
          })
          (record model {
            predictions = pop action_id model.predictions;
            causal = learn action_id prediction.expected differences model.causal;
          })
  ]

-- `simulated.update(expected)`
unfoldable pub update : {V : Type 0} → Dict V → Dict V → Dict V
update d [] = d
update d ((key, value) ∷ rest) = update (put key value d) rest

unfoldable pub simulate : {V : Type 0} → ℕ → Dict V → WorldModel V → Dict V × WorldModel V
unfolding model_snapshot update fact_values
simulate now expected model =
    let (shot, model') = model_snapshot now model in
    (update (fact_values shot.facts) expected, model')

-- What `export_state` lists of the evidence, with its confidence, beside the predictions.
unfoldable pub export_evidence : CausalModel → List (CausalEvidence × ℕ × ℕ)
unfolding confidence_of
export_evidence [] = []
export_evidence (e ∷ rest) =
    let (supporting, observations) = confidence_of e in
    (e, supporting, observations) ∷ export_evidence rest

unfoldable pub export_state :
    {V : Type 0} → WorldModel V → List (Prediction V) × List (CausalEvidence × ℕ × ℕ)
unfolding export_evidence
export_state model = (values model.predictions, export_evidence model.causal)
