-- ===== src/Autonomy/World/Versions.antt =====
-- The versions of the world only grow, and no fact is ahead of them.
use brainless_agent.Common.{
  ℕ, ◌+◌, ◌≤◌, ◌<◌, String, Bool, true, false, Option, none, some, ◌≡◌, refl, sym, ◌∙◌, ap, subst,
  ◌⊎◌, inl, inr, List, [], ◌∷◌, arith, ◌==◌, Bool-cases, if◌then◌else◌, some-injective, none≢some,
}
use brainless_agent.Common.Dict.{Dict, get, put, has, get-put}
use brainless_agent.Autonomy.World.{
  FactKind, Values, ComputerState, WorldFact, WorldState, merge_items, items, expires, spoil,
  invalidate, invalidate_stale, snapshot, observe_state, capture, record_fact, is_observed,
}

-- No fact is ahead of the version `n`.
pub record Bounded {V : Type 0} (n : ℕ) (facts : Dict (WorldFact V)) : Type 0 where
  pub behind : (k : String) (f : WorldFact V) → get k facts ≡ some f → f.version ≤ n

-- What `invalidate` makes of one fact.
pub record Aged {V : Type 0} (now stale_after n m : ℕ) (k : String) (facts : Dict (WorldFact V))
    (g : WorldFact V) : Type 0 where
  pub old : WorldFact V
  pub found : get k facts ≡ some old
  pub change :
      (g ≡ old) × (expires now stale_after old ≡ false)
      ⊎ (is_observed g.kind ≡ false) × (n < g.version) × (g.version ≤ m)

module _ {V : Type 0} (now stale_after : ℕ) where
  pub invalidate-grows :
      (n : ℕ) (facts : Dict (WorldFact V)) → n ≤ (invalidate now stale_after n facts).0
  unfolding invalidate
  invalidate-grows n [] = omega arith
  invalidate-grows n ((k, f) ∷ facts) = elim (Bool-cases (expires now stale_after f)) [
    | inl old ↦ ground (arith, old, invalidate-grows (n + 1) facts)
    | inr fresh ↦ ground (arith, fresh, invalidate-grows n facts)
  ]

  -- The head of the list, changed or not, and the rest of it from the version `m` on.
  split_Aged :
      (n m p : ℕ) (old here : Bool) (k j : String) (f g : WorldFact V)
      (facts after : Dict (WorldFact V))
      → expires now stale_after f ≡ old
      → (k == j) ≡ here
      → m ≡ (if old then n + 1 else n)
      → m ≤ p
      → (get j after ≡ some g → Aged now stale_after m p j facts g)
      → (if here then some (if old then spoil m f else f) else get j after) ≡ some g
      → Aged now stale_after n p j ((k, f) ∷ facts) g
  unfolding get
  split_Aged n m p true true k j f g facts after o h at le tail e = record {
    old = f;
    found = rw h refl;
    change = inr (
      ap (λ (x : WorldFact V). is_observed x.kind) (sym (some-injective e)),
      omega (arith, at, ap (λ (x : WorldFact V). x.version) (some-injective e)),
      omega (arith, at, le, ap (λ (x : WorldFact V). x.version) (some-injective e)),
    );
  }
  split_Aged n m p false true k j f g facts after o h at le tail e = record {
    old = f;
    found = rw h refl;
    change = inl (sym (some-injective e), o);
  }
  split_Aged n m p old false k j f g facts after o h at le tail e =
      let a = tail e in
      record {
        old = a.old;
        found = rw h a.found;
        change = elim a.change [
          | inl same ↦ inl same
          | inr (kind, above, below) ↦ inr (kind, ground (arith, at, above), below)
        ];
      }

  pub invalidate-Aged :
      (n : ℕ) (facts : Dict (WorldFact V)) (j : String) (g : WorldFact V)
      → get j (invalidate now stale_after n facts).1 ≡ some g
      → Aged now stale_after n (invalidate now stale_after n facts).0 j facts g
  unfolding invalidate get
  invalidate-Aged n [] j g e = absurd (none≢some e)
  invalidate-Aged n ((k, f) ∷ facts) j g e =
      let m = if expires now stale_after f then n + 1 else n in
      split_Aged n m (invalidate now stale_after m facts).0 (expires now stale_after f) (k == j) k j
        f g facts (invalidate now stale_after m facts).1 refl refl refl (invalidate-grows m facts)
        (invalidate-Aged m facts j g) e

  pub invalidate-has :
      (n : ℕ) (facts : Dict (WorldFact V)) (j : String)
      → has j (invalidate now stale_after n facts).1 ≡ has j facts
  unfolding invalidate get
  invalidate-has n [] j = refl
  invalidate-has n ((k, f) ∷ facts) j = elim (Bool-cases (k == j)) [
    | inl here ↦ ground (arith, here)
    | inr other ↦
        let m = if expires now stale_after f then n + 1 else n in
        ground (arith, other, invalidate-has m facts j)
  ]

  invalidate-Bounded :
      (n : ℕ) (facts : Dict (WorldFact V))
      → Bounded n facts
      → Bounded (invalidate now stale_after n facts).0 (invalidate now stale_after n facts).1
  invalidate-Bounded n facts b = record {
    behind = λ k g e.
        let a = invalidate-Aged n facts k g e in
        elim a.change [
          | inl (same, fresh) ↦ omega (
            arith,
            ap (λ (x : WorldFact V). x.version) same,
            b.behind k a.old a.found,
            invalidate-grows n facts,
          )
          | inr (kind, above, below) ↦ below
        ];
  }

module _ {V : Type 0} where
  put-Bounded :
      (k : String) (f : WorldFact V) (n : ℕ) (facts : Dict (WorldFact V))
      → f.version ≤ n
      → Bounded n facts
      → Bounded n (put k f facts)
  put-Bounded k f n facts le b = record {
    behind = λ j g e. elim (Bool-cases (k == j)) [
      | inl here ↦
          let new : get j (put k f facts) ≡ some f = get-put k j f facts ∙ rw here refl in
          subst (λ (x : WorldFact V). x.version ≤ n) (some-injective (sym new ∙ e)) le
      | inr other ↦ b.behind j g (sym (get-put k j f facts ∙ rw other refl) ∙ e)
    ];
  }

  merge_items-Bounded :
      (fact : V → WorldFact V) (n : ℕ) (rows : List (String × Option V))
      (facts : Dict (WorldFact V))
      → ((v : V) → (fact v).version ≤ n)
      → Bounded n facts
      → Bounded n (merge_items fact rows facts)
  unfolding merge_items
  merge_items-Bounded fact n [] facts at b = b
  merge_items-Bounded fact n ((name, none) ∷ rows) facts at b =
      merge_items-Bounded fact n rows facts at b
  merge_items-Bounded fact n ((name, some v) ∷ rows) facts at b =
      merge_items-Bounded fact n rows (put name (fact v) facts) at
        (put-Bounded name (fact v) n facts (at v) b)

-- The calls of the manager that change it; `invalidate_stale`, `get` and `snapshot` all age it.
pub data Call (V : Type 0) : Type 0 where
  captures :
      (now : ℕ) (source : String) (evidence : Option String) (confidence : ℕ)
      → ComputerState V
      → Call V
  records :
      (now : ℕ) (key : String)
      → V
      → FactKind
      → (source : String) (confidence : ℕ) (evidence : Option String) → Call V
  ages : (now : ℕ) → Call V

unfoldable pub call : {V : Type 0} → Values V → Call V → WorldState V → WorldState V
unfolding capture record_fact snapshot
call values (captures now source evidence confidence state) w =
    (capture values now source evidence confidence state w).1
call values (records now key value kind source confidence evidence) w =
    (record_fact now key value kind source confidence evidence w).1
call values (ages now) w = (snapshot now w).1

unfoldable pub calls : {V : Type 0} → Values V → List (Call V) → WorldState V → WorldState V
unfolding call
calls values [] w = w
calls values (c ∷ cs) w = calls values cs (call values c w)

-- What every call keeps: the world `w` may become `w'`.
pub record Advances {V : Type 0} (w w' : WorldState V) : Type 0 where
  pub grows : w.version ≤ w'.version
  pub keeps : Bounded w.version w.facts → Bounded w'.version w'.facts

up : {V : Type 0} {n m : ℕ} {facts : Dict (WorldFact V)} → n ≤ m → Bounded n facts → Bounded m facts
up le b = record { behind = λ k f e. omega (arith, le, b.behind k f e) }

module _ {V : Type 0} (values : Values V) where
  pub snapshot-Advances : (now : ℕ) (w : WorldState V) → Advances w (snapshot now w).1
  unfolding snapshot invalidate_stale
  snapshot-Advances now w = record {
    grows = invalidate-grows now w.stale_after w.version w.facts;
    keeps = invalidate-Bounded now w.stale_after w.version w.facts;
  }

  pub observe_state-Advances :
      (source : String) (evidence : Option String) (confidence : ℕ) (state : ComputerState V)
      (w : WorldState V)
      → Advances w (observe_state values source evidence confidence state w)
  unfolding observe_state
  observe_state-Advances source evidence confidence state w = record {
    grows = omega arith;
    keeps = λ b.
        merge_items-Bounded _ (w.version + 1) (items values state) w.facts (λ v. omega arith)
          (up (omega arith) b);
  }

  Advances-then : {u v w : WorldState V} → Advances u v → Advances v w → Advances u w
  Advances-then a b = record {
    grows = omega (arith, a.grows, b.grows);
    keeps = λ h. b.keeps (a.keeps h);
  }

  pub call-Advances : (c : Call V) (w : WorldState V) → Advances w (call values c w)
  unfolding call capture record_fact
  call-Advances (captures now source evidence confidence state) w =
      Advances-then (observe_state-Advances source evidence confidence state w)
        (snapshot-Advances now (observe_state values source evidence confidence state w))
  call-Advances (records now key value kind source confidence evidence) w = record {
    grows = omega arith;
    keeps = λ b. put-Bounded key _ (w.version + 1) w.facts (omega arith) (up (omega arith) b);
  }
  call-Advances (ages now) w = snapshot-Advances now w

  -- Over any calls on a world in which no fact is ahead of the version, the version never goes down
  -- and again no fact is ahead of it.
  pub calls-Advances : (cs : List (Call V)) (w : WorldState V) → Advances w (calls values cs w)
  unfolding calls
  calls-Advances [] w = record { grows = omega arith; keeps = λ b. b }
  calls-Advances (c ∷ cs) w =
      Advances-then (call-Advances c w) (calls-Advances cs (call values c w))
