-- ===== src/Autonomy/World/Freshness.antt =====
-- What a fact that is reported as observed is worth, and what `diff` makes of two observations.
use brainless_agent.Common.{
  ℕ, ◌+◌, ◌≤◌, ◌<◌, String, Bool, true, false, ◌&&◌, Option, none, some, ◌≡◌, refl, sym, ◌∙◌, ap,
  subst, inl, inr, List, [], ◌∷◌, arith, ◌==◌, eq_iff, eq_refl, Bool-cases, Option-cases, is_empty,
  ◌||◌, contains, is_some, contains-append, some-injective, none≢some,
}
use brainless_agent.Common.Dict.{Dict, get, put, keys, get-put, contains-keys}
use brainless_agent.Autonomy.World.{
  FactKind, Values, ComputerState, WorldFact, WorldState, fact_at, merge_items, items, expires,
  invalidate, invalidate_stale, snapshot, observe_state, capture, get_fact, if_observed,
  is_observed, is_stale, same_found, same_fact, diff, diff_over, new_keys,
}
use brainless_agent.Autonomy.World.Versions.{
  Bounded, Call, captures, call, calls, call-Advances, calls-Advances, invalidate-Aged,
  invalidate-has, observe_state-Advances,
}

true≢false : true ≡ false → ⊥
true≢false e = cc

module _ {V : Type 0} (now : ℕ) (key : String) (w : WorldState V) (f : WorldFact V) where
  if_observed-found :
      (o : Option (WorldFact V))
      → if_observed true o ≡ some f
      → (o ≡ some f) × (is_observed f.kind ≡ true)
  if_observed-found none e = absurd (none≢some e)
  if_observed-found (some g) e = elim (Bool-cases (is_observed g.kind)) [
    | inl seen ↦ ground (arith, seen, e)
    | inr unseen ↦ ground (arith, unseen, e)
  ]

  observed-stale : (k : FactKind) → is_observed k ≡ true → is_stale k ≡ false
  observed-stale FactKind.observed e = refl
  observed-stale FactKind.stale e = absurd (true≢false (sym e))
  observed-stale FactKind.inferred e = absurd (true≢false (sym e))
  observed-stale FactKind.assumed e = absurd (true≢false (sym e))

  young :
      (g : WorldFact V)
      → is_observed g.kind ≡ true
      → expires now w.stale_after g ≡ false
      → now ≤ g.timestamp + w.stale_after
  young g seen fresh = ground (arith, observed-stale g.kind seen, fresh)

  -- A fact that `get` reports with `require_observed` is one that the world held before the call,
  -- as an observation, and no older than `stale_after`.
  pub get_fact-fresh :
      (get_fact now key true w).0 ≡ some f
      → (get key w.facts ≡ some f)
        × (is_observed f.kind ≡ true)
        × (now ≤ f.timestamp + w.stale_after)
  unfolding get_fact invalidate_stale
  get_fact-fresh e =
      let (found, seen) = if_observed-found _ e in
      let a = invalidate-Aged now w.stale_after w.version w.facts key f found in
      elim a.change [
        | inl (same, fresh) ↦ (
          a.found ∙ ap some (sym same),
          seen,
          young f seen (ap (expires now w.stale_after) same ∙ fresh),
        )
        | inr (unseen, above, below) ↦ absurd (true≢false (sym seen ∙ unseen))
      ]

-- `visible_ui` is one of the fields that are never `None`: each capture writes it.
abbrev always : String
always = "visible_ui"

-- The fact of `j` has the version `n`.
record Written {V : Type 0} (n : ℕ) (j : String) (facts : Dict (WorldFact V)) : Type 0 where
  fact : WorldFact V
  found : get j facts ≡ some fact
  version : fact.version ≡ n

-- One of the items is a value for `j`.
unfoldable wrote : {V : Type 0} → String → List (String × Option V) → Bool
wrote j [] = false
wrote j ((name, o) ∷ rows) = ((name == j) && is_some o) || wrote j rows

module _ {V : Type 0} (fact : V → WorldFact V) (n : ℕ) (at : (v : V) → (fact v).version ≡ n) where
  put-Written :
      (j k : String) (v : V) (facts : Dict (WorldFact V))
      → Written n j facts
      → Written n j (put k (fact v) facts)
  put-Written j k v facts h = elim (Bool-cases (k == j)) [
    | inl here ↦ record {
      fact = fact v;
      found = get-put k j (fact v) facts ∙ rw here refl;
      version = at v;
    }
    | inr other ↦ record {
      fact = h.fact;
      found = get-put k j (fact v) facts ∙ rw other h.found;
      version = h.version;
    }
  ]

  put-new : (j : String) (v : V) (facts : Dict (WorldFact V)) → Written n j (put j (fact v) facts)
  put-new j v facts = record {
    fact = fact v;
    found = get-put j j (fact v) facts ∙ rw (eq_refl j) refl;
    version = at v;
  }

  merge_items-Written :
      (j : String) (rows : List (String × Option V)) (facts : Dict (WorldFact V))
      → Written n j facts
      → Written n j (merge_items fact rows facts)
  unfolding merge_items
  merge_items-Written j [] facts h = h
  merge_items-Written j ((name, none) ∷ rows) facts h = merge_items-Written j rows facts h
  merge_items-Written j ((name, some v) ∷ rows) facts h =
      merge_items-Written j rows (put name (fact v) facts) (put-Written j name v facts h)

  merge_items-writes :
      (j : String) (rows : List (String × Option V)) (facts : Dict (WorldFact V))
      → wrote j rows ≡ true
      → Written n j (merge_items fact rows facts)
  unfolding merge_items wrote
  merge_items-writes j [] facts h = absurd (true≢false (sym h))
  merge_items-writes j ((name, none) ∷ rows) facts h =
      merge_items-writes j rows facts (ground (arith, h))
  merge_items-writes j ((name, some u) ∷ rows) facts h = elim (Bool-cases (name == j)) [
    | inl here ↦ merge_items-Written j rows (put name (fact u) facts) (
        subst (λ k. Written n k (put name (fact u) facts)) ((eq_iff name j).0 here)
          (put-new name u facts))
    | inr other ↦ merge_items-writes j rows (put name (fact u) facts) (ground (arith, other, h))
  ]

contains-new_keys :
    (k : String) (old xs : List String)
    → contains k xs ≡ true
    → (contains k old || contains k (new_keys old xs)) ≡ true
unfolding contains new_keys
contains-new_keys k old [] h = absurd (true≢false (sym h))
contains-new_keys k old (x ∷ xs) h = ground (arith, eq_iff k x, h, contains-new_keys k old xs)

diff_over-lists :
    {V : Type 0} (same : V → V → Bool) (before after : Dict (WorldFact V)) (k : String)
    (ks : List String)
    → contains k ks ≡ true
    → same_found same (get k before) (get k after) ≡ false
    → is_empty (diff_over same before after ks) ≡ false
unfolding contains diff_over
diff_over-lists same before after k [] h d = absurd (true≢false (sym h))
diff_over-lists same before after k (x ∷ ks) h d = elim (Bool-cases (k == x)) [
  | inl here ↦
      let there : same_found same (get x before) (get x after) ≡ false =
        subst (λ j. same_found same (get j before) (get j after) ≡ false) ((eq_iff k x).0 here) d in
      ground (arith, there)
  | inr other ↦ ground (arith, other, h, diff_over-lists same before after k ks)
]

module _ {V : Type 0} (same : V → V → Bool) where
  -- Facts of different versions are different.
  same_fact-version : (a b : WorldFact V) → a.version < b.version → same_fact same a b ≡ false
  same_fact-version a b lt = ground (arith, lt)

  same_found-version :
      (o : Option (WorldFact V)) (b : WorldFact V)
      → ((a : WorldFact V) → o ≡ some a → a.version < b.version)
      → same_found same o (some b) ≡ false
  same_found-version none b lt = refl
  same_found-version (some a) b lt = same_fact-version a b (lt a refl)

module _ {V : Type 0} (values : Values V) where
  observe_state-Written :
      (source : String) (evidence : Option String) (confidence : ℕ) (state : ComputerState V)
      (w : WorldState V)
      → Written
          (w.version + 1)
          always
          (observe_state values source evidence confidence state w).facts
  unfolding observe_state items wrote
  observe_state-Written source evidence confidence state w =
      merge_items-writes (fact_at source evidence confidence state.timestamp (w.version + 1))
        (w.version + 1) (λ v. refl) always (items values state) w.facts refl

  capture-new :
      (now : ℕ) (source : String) (evidence : Option String) (confidence : ℕ)
      (state : ComputerState V) (w : WorldState V)
      → (g : WorldFact V) × (get always
            (capture values now source evidence confidence state w).0.facts
          ≡ some g)
        × (w.version < g.version)
  unfolding capture snapshot invalidate_stale
  capture-new now source evidence confidence state w =
      let w' = observe_state values source evidence confidence state w in
      let h = observe_state-Written source evidence confidence state w in
      elim (Option-cases (get always (invalidate now w'.stale_after w'.version w'.facts).1)) [
        | inl gone ↦ absurd (
            true≢false (
              sym (ap is_some h.found)
              ∙ sym (invalidate-has now w'.stale_after w'.version w'.facts always)
              ∙ ap is_some gone))
        | inr (g, there) ↦
            let a = invalidate-Aged now w'.stale_after w'.version w'.facts always g there in
            let same : a.old ≡ h.fact = some-injective (sym a.found ∙ h.found) in
            (
              g,
              there,
              elim a.change [
                | inl (kept, fresh) ↦
                    omega (arith, ap (λ (x : WorldFact V). x.version) (kept ∙ same), h.version)
                | inr (stale, above, below) ↦ omega (
                  arith,
                  above,
                  (observe_state-Advances values source evidence confidence state w).grows,
                )
              ],
            )
      ]

-- A change that nobody made: after two captures, with any calls between them, `diff` of their
-- snapshots is never empty, whatever the two states are, in a world in which no fact is ahead of
-- the version.
pub diff-nonempty :
    {V : Type 0} (values : Values V) (w : WorldState V) (cs : List (Call V)) (now now' : ℕ)
    (source source' : String) (evidence evidence' : Option String) (confidence confidence' : ℕ)
    (state state' : ComputerState V)
    → Bounded w.version w.facts
    → let (before, w') = capture values now source evidence confidence state w in
      let (after, w'') =
        capture values now' source' evidence' confidence' state' (calls values cs w') in
      is_empty (diff values.same before after) ≡ false
unfolding diff call capture snapshot
diff-nonempty {V} values w cs now now' source source' evidence evidence' confidence confidence'
      state state' b =
    let (before, w') = capture values now source evidence confidence state w in
    let first = call-Advances values (captures now source evidence confidence state) w in
    let middle = calls-Advances values cs w' in
    let (g, there, new) =
      capture-new values now' source' evidence' confidence' state' (calls values cs w') in
    let after = (capture values now' source' evidence' confidence' state' (calls values cs w')).0 in
    diff_over-lists values.same before.facts after.facts always _
      (contains-append always (keys before.facts) (new_keys (keys before.facts) (keys after.facts))
        ∙ contains-new_keys always (keys before.facts) (keys after.facts)
            (contains-keys always after.facts ∙ ap is_some there))
      (subst (λ o. same_found values.same (get always before.facts) o ≡ false) (sym there)
        (same_found-version values.same (get always before.facts) g
          (λ f found. omega (arith, (first.keeps b).behind always f found, middle.grows, new))))
