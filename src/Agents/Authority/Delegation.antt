-- ===== src/Agents/Authority/Delegation.antt =====
-- Creation, grants and revocation keep the hierarchy confined.
use brainless_agent.Common.{
  ℕ, String, some, ◌≡◌, refl, sym, subst, ◌⊎◌, inl, inr, arith, ◌==◌, eq_iff, contains,
  contains-add, contains-discard, ok, Bool-cases, ℕ, ◌>>◌,
}
use brainless_agent.Common.Keeps.{Keeps}
use brainless_agent.Common.Cases.{read_cases, guard_cases, bind_cases}
use brainless_agent.Common.Dict.{Dict, get}
use brainless_agent.Agents.Models.{Agent, EventType}
use brainless_agent.Agents.Manager.{
  Manager, change, get_agent, owned_child, with_permission, without_permission, grant_permission,
  revoke_permission, note,
}
use brainless_agent.Agents.Authority.Confined.{
  Base, Holds, IsRoot, IsConfined, RootsHold, Narrows-IsConfined, change-Narrows,
}
use brainless_agent.Agents.Reads.{
  state-get_agent, get_agent-ok, state-owned_child, owned_child-ok, refuse-Raises,
}
use brainless_agent.Agents.Authority.Frame.{confined}
use brainless_agent.Agents.Frames.{note-Keeps, refuse-Keeps}

module _ {base : Base} where
  -- A permission that some agent holds is held by the root.
  pub held-RootsHold :
      {m : Manager} (i : String) (a : Agent) (p : String)
      → IsConfined base m
      → get i m.agents ≡ some a
      → Holds a p
      → RootsHold m p
  held-RootsHold i a p h found held j r at top = h.bounded i j a r p found at top held

  widen-IsConfined :
      (i p : String) (m : Manager)
      → RootsHold m p
      → IsConfined base m
      → IsConfined base (change i (with_permission p) m).1
  widen-IsConfined i p m held = Narrows-IsConfined (
      change-Narrows i (with_permission p) m λ a found. record {
        same_id = refl;
        same_parent = refl;
        no_more = λ q h. new_or_old q a h;
        root_keeps = λ _ q h. ground (arith, contains-add p q a.permissions);
      })
    where
      new_or_old :
          (q : String) (a : Agent) → Holds (with_permission p a) q → Holds a q ⊎ RootsHold m q
      new_or_old q a h = elim (Bool-cases (q == p)) [
        | inl same ↦ inr (subst (RootsHold m) (sym ((eq_iff q p).0 same)) held)
        | inr other ↦ inl (ground (arith, contains-add p q a.permissions))
      ]

  change-note :
      (now : ℕ) (i : String) (f : Agent → Agent) (type : EventType) (detail : String)
      (metadata : Dict String) (m : Manager)
      → IsConfined base (change i f m).1
      → IsConfined base ((change i f >> note now i type detail metadata) m).1
  change-note now i f type detail metadata m h =
      bind_cases (λ r. IsConfined base r.1) (change i f) (λ _. note now i type detail metadata) m
        (λ _ _. (note-Keeps confined now i type detail metadata).from _ h) (λ _ _. h)

  pub grant_permission-IsConfined :
      (now : ℕ) (parent i p : String) → Keeps (IsConfined base) (grant_permission now parent i p)
  unfolding grant_permission
  grant_permission-IsConfined now parent i p = record {
    from = λ m h.
        read_cases (λ r. IsConfined base r.1) (get_agent parent) _ m (state-get_agent parent m)
          (λ a found.
            read_cases (λ r. IsConfined base r.1) (owned_child parent i) _ m
              (state-owned_child parent i m)
              (λ _ _.
                guard_cases (λ r. IsConfined base r.1) (contains p a.permissions) _ _ m
                  (refuse-Raises now a.agent_id a.parent_agent_id p _)
                  (λ held. change-note now i (with_permission p) _ _ _ m (
                    widen-IsConfined i p m
                      (held-RootsHold parent a p h (get_agent-ok parent m a found) held) h))
                  (λ _. (refuse-Keeps confined now a.agent_id a.parent_agent_id p _).from m h))
              (λ _ _. h))
          (λ _ _. h);
  }

-- A child has a parent, so that it is no root.
child-not-IsRoot :
    (parent i : String) (m : Manager) (c a : Agent)
    → (owned_child parent i m).0 ≡ ok c
    → get i m.agents ≡ some a
    → ¬ (IsRoot a)
child-not-IsRoot parent i m c a e found top =
    let (at, (p, _, is)) = owned_child-ok parent i m c e in ground (arith, at, found, top, is)

module _ {base : Base} where
  pub revoke_permission-IsConfined :
      (now : ℕ) (parent i p : String) → Keeps (IsConfined base) (revoke_permission now parent i p)
  unfolding revoke_permission
  revoke_permission-IsConfined now parent i p = record {
    from = λ m h.
        read_cases (λ r. IsConfined base r.1) (owned_child parent i) _ m
          (state-owned_child parent i m)
          (λ c e. change-note now i (without_permission p) _ _ _ m (
            Narrows-IsConfined
              (change-Narrows i (without_permission p) m λ a found. record {
                same_id = refl;
                same_parent = refl;
                no_more = λ q held. inl (ground (arith, contains-discard p q a.permissions));
                root_keeps = λ top q held. absurd (child-not-IsRoot parent i m c a e found top);
              })
              h))
          (λ _ _. h);
  }
