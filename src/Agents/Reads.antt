-- ===== src/Agents/Reads.antt =====
-- The look-ups of the manager: they leave the state alone, and what they return is in the table.
use brainless_agent.Common.{
  ℕ, String, Option, some, ◌≡◌, refl, inl, inr, arith, ok, Option-cases, throw, pure, ◌>>=◌,
  permission_denied, true,
}
use brainless_agent.Common.Cases.{Raises}
use brainless_agent.Common.Dict.{get}
use brainless_agent.Agents.Models.{Agent}
use brainless_agent.Agents.Manager.{Manager, get_agent, owned_child, is_parent, refuse, deny}

module _ (i : String) (m : Manager) where
  pub state-get_agent : (get_agent i m).1 ≡ m
  unfolding get_agent pure throw
  state-get_agent = ground arith

  pub get_agent-ok : (a : Agent) → (get_agent i m).0 ≡ ok a → get i m.agents ≡ some a
  unfolding get_agent pure throw
  get_agent-ok a h = ground arith

module _ (parent_id i : String) (m : Manager) where
  pub state-owned_child : (owned_child parent_id i m).1 ≡ m
  unfolding owned_child get_agent ◌>>=◌
  state-owned_child = ground arith

  -- A child that was found has a parent, and both are in the table.
  pub owned_child-ok :
      (c : Agent)
      → (owned_child parent_id i m).0 ≡ ok c
      → (get i m.agents ≡ some c)
        × ((p : Agent) × (get parent_id m.agents ≡ some p)
            × (is_parent c.parent_agent_id p.agent_id ≡ true))
  unfolding owned_child get_agent ◌>>=◌
  owned_child-ok c h = elim (Option-cases (get parent_id m.agents)) [
    | inl absent ↦ absurd (ground arith)
    | inr (p, found) ↦ (ground arith, (p, found, ground arith))
  ]

pub refuse-Raises :
    {A : Type 0} (now : ℕ) (i : String) (parent : Option String) (permission reason : String)
    → Raises (refuse {A = A} now i parent permission reason)
unfolding refuse deny pure throw
refuse-Raises now i parent permission reason = record {
  error = λ _. permission_denied i permission reason;
  raises = λ _. refl;
}
