-- ===== src/Agents/Authority/Creation.antt =====
-- A new agent keeps the hierarchy confined.
use brainless_agent.Common.{
  All-map, ℕ, String, true, false, Option, none, some, ◌≡◌, ◌≢◌, refl, sym, ◌∙◌, ap, subst, ◌⊎◌,
  inl, inr, List, arith, ◌==◌, eq_iff, eq_refl, subset, subset-contains, difference,
  difference-subset, is_empty, is_none, any, Bool-cases, pure, throw,
}
use brainless_agent.Common.Cases.{read_cases, guard_cases, bind_cases}
use brainless_agent.Common.Dict.{Dict, get, put, get-put, any-values, values}
use brainless_agent.Safety.Leases.{CapabilityLease}
use brainless_agent.Agents.Models.{Agent}
use brainless_agent.Agents.Manager.{
  Manager, change, get_agent, check_tools, new_child, add_child, create_agent, create_root,
  log_event, new_agent,
}
use brainless_agent.Agents.Authority.Confined.{
  Base, Holds, IsRoot, IsConfined, RootsHold, RootHas, Backed, same_agents-IsConfined,
  unchanged-IsConfined,
}
use brainless_agent.Agents.Reads.{state-get_agent, get_agent-ok, refuse-Raises}
use brainless_agent.Agents.Authority.Delegation.{held-RootsHold}
use brainless_agent.Agents.Authority.Frame.{confined, harmless-IsConfined}
use brainless_agent.Agents.Frames.{
  IsOfAgents, SameAuthority, same_authority, refuse-Keeps, check_tools-Keeps,
}

abbrev pub NoRoot : Manager → Type 0
NoRoot m = (i : String) (a : Agent) → get i m.agents ≡ some a → ¬ (IsRoot a)

-- The table after a new entry, seen from a look-up.
put_cases :
    (i j : String) (c a : Agent) (d : Dict Agent)
    → get j (put i c d) ≡ some a
    → (i ≡ j) × (a ≡ c) ⊎ (get j d ≡ some a)
put_cases i j c a d e = elim (Bool-cases (i == j)) [
  | inl same ↦ inl ((eq_iff i j).0 same, ground (arith, get-put i j c d))
  | inr other ↦ inr (ground (arith, get-put i j c d))
]

put_old :
    (i j : String) (c a : Agent) (d : Dict Agent)
    → get i d ≡ none
    → get j d ≡ some a
    → get j (put i c d) ≡ some a
put_old i j c a d fresh e = elim (Bool-cases (i == j)) [
  | inl same ↦ absurd (clash ((eq_iff i j).0 same))
  | inr other ↦ get-put i j c d ∙ rw (other, e)
]
  where
    clash : i ≡ j → ⊥
    clash p = cc (ap (λ k. get k d) p)

put_new : (i : String) (c : Agent) (d : Dict Agent) → get i (put i c d) ≡ some c
put_new i c d = get-put i i c d ∙ rw (eq_refl i)

abbrev with_agent : String → Agent → Manager → Manager
with_agent i c m = record m { agents = put i c m.agents }

module _ {base : Base} (m : Manager) (i : String) (c : Agent) (fresh : get i m.agents ≡ none)
    (named : c.agent_id ≡ i) where
  put_child-IsConfined :
      ¬ (IsRoot c)
      → ((p : String) → Holds c p → RootsHold m p)
      → (j : String) × (r : Agent) × (get j m.agents ≡ some r) × IsRoot r
      → IsConfined base m
      → IsConfined base (with_agent i c m)
  put_child-IsConfined below held (j0, r0, at, top0) h = record {
    keyed = λ j a e. elim (put_cases i j c a m.agents e) [
      | inl (here, same) ↦ ap (λ (x : Agent). x.agent_id) same ∙ named ∙ here
      | inr old ↦ h.keyed j a old
    ];
    unique =
        λ j k a b ea eb ta tb. h.unique j k a b (was_there j a ea ta) (was_there k b eb tb) ta tb;
    rooted = λ j a e. (j0, r0, put_old i j0 c r0 m.agents fresh at, top0);
    bounded = λ j k a r p ea er top has. elim (put_cases i j c a m.agents ea) [
      | inl (_, same) ↦ held p (subst (λ x. Holds x p) same has) k r (was_there k r er top) top
      | inr old ↦ h.bounded j k a r p old (was_there k r er top) top has
    ];
    backed =
        All-map
          (λ l root.
            let (j, r, found, top, has) = root in
            (j, r, put_old i j c r m.agents fresh found, top, has))
          (values m.leases) h.backed;
    kept = λ j given e.
        let (r, found, top, same) = h.kept j given e in
        (r, put_old i j c r m.agents fresh found, top, same);
  }
    where
      was_there :
          (j : String) (a : Agent)
          → get j (put i c m.agents) ≡ some a
          → IsRoot a
          → get j m.agents ≡ some a
      was_there j a e top = elim (put_cases i j c a m.agents e) [
        | inl (_, same) ↦ absurd (below (subst IsRoot same top))
        | inr old ↦ old
      ]

  put_root-IsConfined :
      IsRoot c
      → ((j : String) (a : Agent) → get j m.agents ≢ some a)
      → IsConfined base m
      → IsConfined base (with_agent i c m)
  put_root-IsConfined top none_yet h = record {
    keyed = λ j a e.
        let (here, same) = only j a e in ap (λ (x : Agent). x.agent_id) same ∙ named ∙ here;
    unique = λ j k a b ea eb _ _. sym ((only j a ea).0) ∙ (only k b eb).0;
    rooted = λ j a e. (i, c, put_new i c m.agents, top);
    bounded =
        λ j k a r p ea er _ has. subst (λ x. Holds x p) ((only j a ea).1 ∙ sym (only k r er).1) has;
    backed =
        All-map (λ l root. let (j, r, found, top, has) = root in absurd (none_yet j r found))
          (values m.leases) h.backed;
    kept =
        λ j given e. let (r, found, top', same) = h.kept j given e in absurd (none_yet j r found);
  }
    where
      only : (j : String) (a : Agent) → get j (put i c m.agents) ≡ some a → (i ≡ j) × (a ≡ c)
      only j a e = elim (put_cases i j c a m.agents e) [
        | inl new ↦ new
        | inr old ↦ absurd (none_yet j a old)
      ]

module _ {base : Base} where
  add_child-IsConfined :
      (now : ℕ) (c : Agent) (parent : String) (m : Manager)
      → IsConfined base (with_agent c.agent_id c m)
      → IsConfined base (add_child now c parent m).1
  unfolding add_child log_event pure change
  add_child-IsConfined now c parent m h =
      unchanged-IsConfined (same_authority refl refl) (
        (harmless-IsConfined parent _ (λ a. (refl, refl, refl))).from (with_agent c.agent_id c m) h)

-- The agents are those of `m`, and the leases are backed by its root.
record AgentsAre (m n : Manager) : Type 0 where
  same : n.agents ≡ m.agents
  backed : Backed m n.leases

agents_are : (m : Manager) → IsOfAgents (AgentsAre m)
agents_are m = record {
  carry = λ e h. record {
    same = e.agents ∙ h.same;
    backed = e.leases (λ (l : CapabilityLease). RootHas m l.permission) h.backed;
  };
}

module _ {base : Base} where
  added_child :
      (now : ℕ) (i task_id parent name role objective : String) (task : Option String)
      (permissions tools : List String) (context : Dict String) (given : Option String)
      (m : Manager) (p : Agent)
      → get i m.agents ≡ none
      → get parent m.agents ≡ some p
      → subset permissions p.permissions ≡ true
      → IsConfined base m
      → let c =
          new_child now i task_id parent name role objective task permissions tools context given in
        IsConfined base (with_agent c.agent_id c m)
  unfolding new_child
  added_child now i task_id parent name role objective task permissions tools context given m p
        fresh found sub h =
      put_child-IsConfined m i
        (new_child now i task_id parent name role objective task permissions tools context given)
        fresh refl (λ top. cc)
        (λ q has.
          held-RootsHold parent p q h found (subset-contains q permissions p.permissions sub has))
        (h.rooted parent p found) h

  pub create_agent-IsConfined :
      (now : ℕ) (i task_id parent name role objective : String) (task : Option String)
      (permissions tools : List String) (context : Dict String) (given : Option String)
      (m : Manager)
      → get i m.agents ≡ none
      → IsConfined base m
      → IsConfined base
          (create_agent now i task_id parent name role objective task permissions tools context
            given m).1
  unfolding create_agent
  create_agent-IsConfined now i task_id parent name role objective task permissions tools context
        given m fresh h =
      read_cases (λ r. IsConfined base r.1) (get_agent parent) _ m (state-get_agent parent m)
        (λ p found.
          guard_cases (λ r. IsConfined base r.1) (is_empty (difference permissions p.permissions)) _
            _ m (refuse-Raises now parent p.parent_agent_id _ _)
            (λ none_missing.
              bind_cases (λ r. IsConfined base r.1) (check_tools now p permissions tools) _ m
                (λ _ _. add_child-IsConfined now child parent _ (
                  added p (get_agent-ok parent m p found)
                    (sym (difference-subset permissions p.permissions) ∙ none_missing) _
                    (checked p)))
                (λ _ _. same_agents-IsConfined (checked p).same (checked p).backed h))
            (λ _. (refuse-Keeps confined now parent p.parent_agent_id _ _).from m h))
        (λ _ _. h)
    where
      child : Agent
      child =
          new_child now i task_id parent name role objective task permissions tools context given

      added :
          (p : Agent)
          → get parent m.agents ≡ some p
          → subset permissions p.permissions ≡ true
          → (n : Manager) → AgentsAre m n
          → IsConfined base (with_agent child.agent_id child n)
      added p found sub n checks =
          added_child now i task_id parent name role objective task permissions tools context given
            n p (ap (get i) checks.same ∙ fresh) (ap (get parent) checks.same ∙ found) sub
            (same_agents-IsConfined checks.same checks.backed h)

      checked : (p : Agent) → AgentsAre m (check_tools now p permissions tools m).1
      checked p =
          (check_tools-Keeps (agents_are m) now p permissions tools).from m
            (record { same = refl; backed = h.backed })

  -- With no root there is no agent at all.
  no_agents :
      (m : Manager)
      → IsConfined base m
      → any (values m.agents) (λ a. is_none a.parent_agent_id) ≡ false
      → (j : String) (a : Agent) → get j m.agents ≢ some a
  no_agents m h none_top j a e =
      let (k, r, at, top) = h.rooted j a e in
      let not_top =
        any-values (λ (x : Agent). is_none x.parent_agent_id) k r m.agents none_top at in
      ground (arith, top, not_top)

  pub create_root-IsConfined :
      (now : ℕ) (i name role objective : String) (permissions : List String) (m : Manager)
      → get i m.agents ≡ none
      → IsConfined base m
      → IsConfined base (create_root now i name role objective permissions m).1
  create_root-IsConfined now i name role objective permissions m fresh h =
      elim (Bool-cases (any (values m.agents) (λ a. is_none a.parent_agent_id))) [
        | inl some_top ↦ unchanged-IsConfined (refused some_top) h
        | inr none_top ↦
            unchanged-IsConfined (made none_top)
              (put_root-IsConfined m i root fresh refl refl (no_agents m h none_top) h)
      ]
    where
      root : Agent
      root = new_agent now i name role objective permissions

      refused :
          any (values m.agents) (λ a. is_none a.parent_agent_id) ≡ true
          → SameAuthority m (create_root now i name role objective permissions m).1
      refused e =
          same_authority (unfold create_root throw in rw e) (unfold create_root throw in rw e)

      made :
          any (values m.agents) (λ a. is_none a.parent_agent_id) ≡ false
          → SameAuthority
              (with_agent i root m)
              (create_root now i name role objective permissions m).1
      made e =
          same_authority (unfold create_root log_event pure in rw e)
            (unfold create_root log_event pure in rw e)
