-- ===== src/Autonomy/Registry/Finding.antt =====
-- What the registry finds.
use brainless_agent.Common.{
  eq_refl, ap, sym, ◌∙◌, All-map, false≢true, ◌⊎◌, inl, inr, String, Option, contains, subset,
  subset-contains, Bool, true, false, none, some, ◌≡◌, refl, subst, List, [], ◌∷◌, All, keep,
  keep-All, if◌then◌else◌, arith,
}
use brainless_agent.Common.Dict.{get, values}
use brainless_agent.Agents.Models.{Agent, AgentStatus}
use brainless_agent.Autonomy.Registry.{
  AgentRegistry, TaskRequirements, is_available, capabilities_for, fits, is_better, best_from, best,
  find,
}

best_from-All :
    (P : Agent → Type 0) (r : AgentRegistry) (a : Agent) (bs : List Agent)
    → P a
    → All P bs
    → P (best_from r a bs)
unfolding best_from
best_from-All P r a [] p ps = p
best_from-All P r a (b ∷ bs) p ps =
    best_from-All P r (if is_better r a b then b else a) bs (chosen (is_better r a b)) ps.1
  where
    chosen : (c : Bool) → P (if c then b else a)
    chosen true = ps.0
    chosen false = p

keep-none : {A : Type 0} (p : A → Bool) (xs : List A) → keep p xs ≡ [] → All (λ x. p x ≡ false) xs
unfolding keep
keep-none p [] e = tt
keep-none p (x ∷ xs) e = ground (arith, e, keep-none p xs)

-- What a task asks of an agent, one requirement after the other.
pub record Suits (needs : TaskRequirements) (r : AgentRegistry) (a : Agent) : Type 0 where
  pub free : (a.status ≡ AgentStatus.ready) ⊎ (a.status ≡ AgentStatus.completed)
  pub able :
      (c : String)
      → contains c needs.capabilities ≡ true
      → (cs : List String) × (get a.agent_id r.capabilities ≡ some cs) × (contains c cs ≡ true)
  pub permitted :
      (p : String) → contains p needs.permissions ≡ true → contains p a.permissions ≡ true
  pub equipped : (t : String) → contains t needs.tools ≡ true → contains t a.available_tools ≡ true

is_available-free :
    (s : AgentStatus)
    → is_available s ≡ true
    → (s ≡ AgentStatus.ready) ⊎ (s ≡ AgentStatus.completed)
is_available-free AgentStatus.ready e = inl refl
is_available-free AgentStatus.completed e = inr refl
is_available-free s e = cc

able_of :
    (o : Option (List String)) (c : String)
    → contains c (elim o [ none ↦ [] | some cs ↦ cs ]) ≡ true
    → (cs : List String) × (o ≡ some cs) × (contains c cs ≡ true)
unfolding contains
able_of none c e = cc
able_of (some cs) c e = (cs, refl, e)

fits-Suits :
    (needs : TaskRequirements) (r : AgentRegistry) (a : Agent)
    → fits needs r a ≡ true
    → Suits needs r a
unfolding fits
fits-Suits needs r a e = record {
  free = is_available-free a.status (ground (arith, e));
  able = λ c h.
      able_of (get a.agent_id r.capabilities) c (
        subset-contains c needs.capabilities (capabilities_for a.agent_id r) (ground (arith, e)) h);
  permitted = λ p h. subset-contains p needs.permissions a.permissions (ground (arith, e)) h;
  equipped = λ t h. subset-contains t needs.tools a.available_tools (ground (arith, e)) h;
}

all_in :
    (xs ys : List String)
    → ((x : String) → contains x xs ≡ true → contains x ys ≡ true)
    → subset xs ys ≡ true
unfolding contains subset
all_in [] ys h = refl
all_in (x ∷ xs) ys h =
    let first : contains x ys ≡ true = h x (rw (eq_refl x) refl) in
    let rest : subset xs ys ≡ true = all_in xs ys (λ z e. h z (ground (arith, e))) in
    ground (arith, first, rest)

free-is_available :
    (s : AgentStatus)
    → (s ≡ AgentStatus.ready) ⊎ (s ≡ AgentStatus.completed)
    → is_available s ≡ true
free-is_available s (inl e) = ap (λ x. is_available x) e
free-is_available s (inr e) = ap (λ x. is_available x) e

Suits-fits :
    (needs : TaskRequirements) (r : AgentRegistry) (a : Agent)
    → Suits needs r a
    → fits needs r a ≡ true
unfolding fits
Suits-fits needs r a s =
    let free = free-is_available a.status s.free in
    let able : subset needs.capabilities (capabilities_for a.agent_id r) ≡ true =
      all_in needs.capabilities (capabilities_for a.agent_id r) (λ c h.
        let (cs, found, has) = s.able c h in
        ap (λ (o : Option (List String)). contains c (elim o [ none ↦ [] | some x ↦ x ])) found
        ∙ has) in
    let permitted = all_in needs.permissions a.permissions s.permitted in
    let equipped = all_in needs.tools a.available_tools s.equipped in
    ground (arith, free, able, permitted, equipped)

-- `find` returns an agent only if it is ready or completed and has every capability, permission and
-- tool that is asked for, and returns none only if no registered agent is so.
pub find-fits :
    (needs : TaskRequirements) (r : AgentRegistry)
    → ((a : Agent) → find needs r ≡ some a → Suits needs r a)
      × (find needs r ≡ none → All (λ a. ¬ (Suits needs r a)) (values r.agents))
unfolding find
find-fits needs r = (
  λ a e. fits-Suits needs r a (
      found (keep (fits needs r) (values r.agents)) (keep-All (fits needs r) (values r.agents)) a
        e),
  λ e.
      All-map (λ a unfit suits. false≢true (sym unfit ∙ Suits-fits needs r a suits))
        (values r.agents) (keep-none (fits needs r) (values r.agents) (nobody _ e)),
)
  where
    found :
        (xs : List Agent)
        → All (λ a. fits needs r a ≡ true) xs
        → (a : Agent) → best r xs ≡ some a
        → fits needs r a ≡ true
    found [] ps a e = cc
    found (x ∷ xs) ps a e =
        subst (λ y. fits needs r y ≡ true) (same e)
          (best_from-All (λ y. fits needs r y ≡ true) r x xs ps.0 ps.1)
      where
        same : some (best_from r x xs) ≡ some a → best_from r x xs ≡ a
        same h = cc

    nobody : (xs : List Agent) → best r xs ≡ none → xs ≡ []
    nobody [] e = refl
    nobody (x ∷ xs) e = cc
