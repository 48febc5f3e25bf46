-- ===== src/Agents/Termination/Status.antt =====
-- The status of one agent, and the changes that keep a terminated agent terminated.
use brainless_agent.Common.{
  String, true, false, none, some, ◌≡◌, ◌≢◌, refl, sym, ◌∙◌, ap, subst, ◌⊎◌, inl, inr, arith,
  eq_iff, pure,
}
use brainless_agent.Common.Keeps.{Keeps}
use brainless_agent.Common.Dict.{get, put, get-put, get-modify_forth}
use brainless_agent.Agents.Models.{Agent, AgentStatus, AgentStatus-discrete}
use brainless_agent.Agents.Manager.{Manager, change, has_status}

pub record IsTerminated (i : String) (m : Manager) : Type 0 where
  pub agent : Agent
  pub found : get i m.agents ≡ some agent
  pub is : agent.status ≡ AgentStatus.terminated

pub has_status-true : (s : AgentStatus) (a : Agent) → has_status s a ≡ true → a.status ≡ s
has_status-true s a h = go (AgentStatus-discrete a.status s) h
  where
    go : (d : Dec (a.status ≡ s)) → (elim d [ yes _ ↦ true | no _ ↦ false ]) ≡ true → a.status ≡ s
    go (yes e) k = e
    go (no n) k = cc

pub has_status_self : (s : AgentStatus) (a : Agent) → a.status ≡ s → has_status s a ≡ true
has_status_self s a e = go (AgentStatus-discrete a.status s)
  where
    go : (d : Dec (a.status ≡ s)) → (elim d [ yes _ ↦ true | no _ ↦ false ]) ≡ true
    go (yes _) = refl
    go (no n) = absurd (n e)

-- A change that takes no terminated agent at `j` back.
pub change-IsTerminated :
    (i j : String) (f : Agent → Agent) (m : Manager)
    → ((a : Agent)
        → get j m.agents ≡ some a
        → a.status ≡ AgentStatus.terminated
        → (f a).status ≡ AgentStatus.terminated)
    → IsTerminated i m
    → IsTerminated i (change j f m).1
unfolding change pure
change-IsTerminated i j f m keeps h =
    let (b, at, how) = get-modify_forth j f m.agents i h.found in
    record { agent = b; found = at; is = still b how }
  where
    still :
        (b : Agent) → (j ≡ i) × (b ≡ f h.agent) ⊎ (b ≡ h.agent) → b.status ≡ AgentStatus.terminated
    still b (inl (here, new)) =
        ap (λ (x : Agent). x.status) new
        ∙ keeps h.agent (subst (λ k. get k m.agents ≡ some h.agent) (sym here) h.found) h.is
    still b (inr same) = ap (λ (x : Agent). x.status) same ∙ h.is

pub harmless-IsTerminated :
    (i j : String) (f : Agent → Agent)
    → ((a : Agent) → (f a).status ≡ a.status)
    → Keeps (IsTerminated i) (change j f)
harmless-IsTerminated i j f e = record {
  from = λ m. change-IsTerminated i j f m (λ a _ t. e a ∙ t);
}

pub same_agents-IsTerminated :
    {i : String} {m n : Manager} → n.agents ≡ m.agents → IsTerminated i m → IsTerminated i n
same_agents-IsTerminated {i} e h = record {
  agent = h.agent;
  found = ap (get i) e ∙ h.found;
  is = h.is;
}

-- A new entry under an unused key leaves the agent alone.
pub put-IsTerminated :
    {i : String} {m n : Manager} (j : String) (c : Agent)
    → get j m.agents ≡ none
    → n.agents ≡ put j c m.agents
    → IsTerminated i m
    → IsTerminated i n
put-IsTerminated {i} {m} j c fresh e h = record {
  agent = h.agent;
  found = ap (get i) e ∙ ground (arith, get-put j i c m.agents, eq_iff j i, fresh, h.found);
  is = h.is;
}

pub has_status_other :
    (s t : AgentStatus) (a : Agent) → a.status ≡ t → t ≢ s → has_status s a ≡ false
has_status_other s t a e other = go (AgentStatus-discrete a.status s)
  where
    go : (d : Dec (a.status ≡ s)) → (elim d [ yes _ ↦ true | no _ ↦ false ]) ≡ false
    go (yes is) = absurd (other (sym e ∙ is))
    go (no _) = refl
