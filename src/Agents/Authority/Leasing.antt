-- ===== src/Agents/Authority/Leasing.antt =====
-- A lease keeps the hierarchy confined: the parent that gives it holds the permission.
use brainless_agent.Common.{
  inl, inr, ℕ, String, true, [], ◌∷◌, refl, contains, and_left, All, pure, throw, ◌&&◌, ◌||◌, ◌==◌,
  Bool-cases, Exec, ◌>>=◌, not, leb, Bool, false, if◌then◌else◌,
}
use brainless_agent.Common.Keeps.{Keeps, keeps_rules}
use brainless_agent.Common.Cases.{read_cases, guard_cases, bind_cases}
use brainless_agent.Common.Dict.{put, values}
use brainless_agent.Safety.Leases.{CapabilityLease, Registry, grant}
use brainless_agent.Agents.Manager.{
  Manager, get_agent, owned_child, lease_permission, on_leases, is_task,
}
use brainless_agent.Agents.Authority.Confined.{
  Base, IsConfined, RootHas, Backed, same_agents-IsConfined,
}
use brainless_agent.Agents.Reads.{state-get_agent, get_agent-ok, state-owned_child, refuse-Raises}
use brainless_agent.Agents.Authority.Frame.{confined}
use brainless_agent.Agents.Frames.{note-Keeps, refuse-Keeps}

put-All :
    (Q : CapabilityLease → Type 0) (k : String) (l : CapabilityLease) (d : Registry)
    → Q l
    → All Q (values d)
    → All Q (values (put k l d))
unfolding put values
put-All Q k l [] q h = (q, tt)
put-All Q k l ((j, x) ∷ d) q h = go (j == k) (put-All Q k l d q h.1)
  where
    go :
        (b : Bool)
        → All Q (values (put k l d))
        → All Q (values (if b then (j, l) ∷ d else (j, x) ∷ put k l d))
    go true rest = (q, h.1)
    go false rest = (h.0, rest)

-- What the root has, a lease may be of.
grant-Backed :
    (m : Manager) (lease_id : String) (now : ℕ) (i p t : String) (seconds : ℕ)
    → RootHas m p
    → Backed m m.leases
    → Backed m (grant lease_id now i p t seconds m.leases).1
unfolding grant pure throw
grant-Backed m lease_id now i p t seconds root backed =
    elim (Bool-cases ((t == "") || not (leb 1 seconds && leb seconds 86400))) [
      | inl bad ↦ rw bad backed
      | inr good ↦ rw good (put-All _ lease_id _ m.leases root backed)
    ]

module _ {base : Base} where
  -- The new lease and its log entry.
  leased-IsConfined :
      {A : Type 0} (m : Manager) (lease_id : String) (now : ℕ) (i p t : String) (seconds : ℕ)
      (rest : CapabilityLease → Exec Manager A)
      → ((l : CapabilityLease) → Keeps (IsConfined base) (rest l))
      → RootHas m p
      → IsConfined base m
      → IsConfined base ((on_leases (grant lease_id now i p t seconds) >>= rest) m).1
  leased-IsConfined m lease_id now i p t seconds rest keeps root h =
      bind_cases (λ r. IsConfined base r.1) (on_leases (grant lease_id now i p t seconds)) rest m
        (λ l _. (keeps l).from _ after) (λ _ _. after)
    where
      after : IsConfined base (on_leases (grant lease_id now i p t seconds) m).1
      after =
          same_agents-IsConfined refl (grant-Backed m lease_id now i p t seconds root h.backed) h

  pub lease_permission-IsConfined :
      (iso : ℕ → String) (now : ℕ) (lease_id parent i permission task_id : String) (seconds : ℕ)
      → Keeps
          (IsConfined base)
          (lease_permission iso now lease_id parent i permission task_id seconds)
  unfolding lease_permission
  lease_permission-IsConfined iso now lease_id parent i p t seconds = record {
    from = λ m h.
        read_cases (λ r. IsConfined base r.1) (get_agent parent) _ m (state-get_agent parent m)
          (λ a found.
            read_cases (λ r. IsConfined base r.1) (owned_child parent i) _ m
              (state-owned_child parent i m)
              (λ c _.
                guard_cases (λ r. IsConfined base r.1)
                  (contains p a.permissions && is_task c.current_task_id t) _ _ m
                  (refuse-Raises now c.agent_id c.parent_agent_id p _)
                  (λ both.
                    leased-IsConfined m lease_id now c.agent_id p t seconds _
                      (λ l. search (keeps_rules, confined, note-Keeps) depth 9)
                      (let (j, r, at, top) = h.rooted parent a (get_agent-ok parent m a found) in
                        (
                          j,
                          r,
                          at,
                          top,
                          h.bounded parent j a r p (get_agent-ok parent m a found) at top
                              (and_left _ _ both),
                        ))
                      h)
                  (λ _. (refuse-Keeps confined now c.agent_id c.parent_agent_id p _).from m h))
              (λ _ _. h))
          (λ _ _. h);
  }
