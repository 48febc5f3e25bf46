-- ===== src/Agents/Frames.antt =====
-- The helpers of the manager that leave the table of agents alone keep every property of it.
use brainless_agent.Common.{
  Bool, true, false, All, sym, subst, if◌then◌else◌, ℕ, String, Option, ◌≡◌, refl, List, [], ◌∷◌,
  arith, pure, throw, Result, ok, raise, permission_denied, approval_needed,
}
use brainless_agent.Common.Dict.{Dict, values, keep_values}
use brainless_agent.Common.Keeps.{
  Keeps, keeps_rules, Keeps-bind, Keeps-throw, Keeps-pure, Keeps-reads,
}
use brainless_agent.Safety.Leases.{Registry, CapabilityLease}
use brainless_agent.Safety.Leases
use brainless_agent.Agents.Models.{Agent, EventType}
use brainless_agent.Agents.Manager.{
  Manager, note, log_event, deny, refuse, get_agent, owned_child, on_leases, denied_by_policy,
  check_policy, holds, check_permissions, authorize, forget_run, check_tools,
}

-- The manager `n` has the agents of `m` and no lease that `m` has not.
pub record SameAuthority (m n : Manager) : Type 1 where
  pub agents : n.agents ≡ m.agents
  pub leases : (Q : CapabilityLease → Type 0) → All Q (values m.leases) → All Q (values n.leases)

pub same_authority : {m n : Manager} → n.agents ≡ m.agents → n.leases ≡ m.leases → SameAuthority m n
same_authority a l = record {
  agents = a;
  leases = λ Q. subst (λ (d : Registry). All Q (values d)) (sym l);
}

-- A property that depends on the agents and the leases alone, and loses nothing with a lease.
pub record IsOfAgents (P : Manager → Type 0) : Type 1 where
  pub carry : {m n : Manager} → SameAuthority m n → P m → P n

authority-note :
    (now : ℕ) (i : String) (type : EventType) (detail : String) (metadata : Dict String)
    (m : Manager)
    → SameAuthority m (note now i type detail metadata m).1
unfolding note log_event pure
authority-note now i type detail metadata m = same_authority (ground arith) (ground arith)

authority-get_agent : (i : String) (m : Manager) → SameAuthority m (get_agent i m).1
unfolding get_agent pure throw
authority-get_agent i m = same_authority (ground arith) (ground arith)

kept-All :
    (Q : CapabilityLease → Type 0) (p : CapabilityLease → Bool) (d : Registry)
    → All Q (values d)
    → All Q (values (keep_values p d))
unfolding keep_values values
kept-All Q p [] h = tt
kept-All Q p ((k, l) ∷ d) h = go (p l) (kept-All Q p d h.1)
  where
    go :
        (b : Bool)
        → All Q (values (keep_values p d))
        → All Q (values (if b then (k, l) ∷ keep_values p d else keep_values p d))
    go true rest = (h.0, rest)
    go false rest = rest

module _ {P : Manager → Type 0} (o : IsOfAgents P) where
  pub note-Keeps :
      (now : ℕ) (i : String) (type : EventType) (detail : String) (metadata : Dict String)
      → Keeps P (note now i type detail metadata)
  note-Keeps now i type detail metadata = record {
    from = λ m. o.carry (authority-note now i type detail metadata m);
  }

  pub refuse-Keeps :
      {A : Type 0} (now : ℕ) (i : String) (parent : Option String) (permission reason : String)
      → Keeps P (refuse {A = A} now i parent permission reason)
  unfolding refuse deny pure throw
  refuse-Keeps now i parent permission reason = record {
    from = λ m. o.carry (same_authority refl refl);
  }

  pub deny-Keeps :
      (now : ℕ) (i : String) (parent : Option String) (permission reason : String)
      → Keeps P (deny now i parent permission reason)
  unfolding deny pure
  deny-Keeps now i parent permission reason = record {
    from = λ m. o.carry (same_authority refl refl);
  }

  pub get_agent-Keeps : (i : String) → Keeps P (get_agent i)
  get_agent-Keeps i = record { from = λ m. o.carry (authority-get_agent i m) }

  permits-Keeps :
      (now : ℕ) (agent_id permission : String) (task_id : Option String)
      → Keeps P (on_leases (Leases.permits now agent_id permission task_id))
  unfolding Leases.permits Leases.prune pure
  permits-Keeps now agent_id permission task_id = record {
    from = λ m.
        o.carry (record { agents = refl; leases = λ Q. kept-All Q (Leases.active now) m.leases });
  }

  pub owned_child-Keeps : (i j : String) → Keeps P (owned_child i j)
  unfolding owned_child
  owned_child-Keeps i j = search (keeps_rules, get_agent-Keeps) depth 9

  pub forget_run-Keeps : (i : String) (m : Manager) → P m → P (forget_run i m)
  unfolding forget_run
  forget_run-Keeps i m = o.carry (same_authority refl refl)

  denied_by_policy-Keeps :
      (now : ℕ) (a : Agent) (permission : String) (r : Result (Unit {0}))
      → Keeps P (denied_by_policy now a permission r)
  denied_by_policy-Keeps now a permission (ok u) = search keeps_rules
  denied_by_policy-Keeps now a permission (raise (permission_denied b p reason)) =
      Keeps-bind _ _ (deny-Keeps now a.agent_id a.parent_agent_id permission reason)
        (λ _. Keeps-throw _)
  denied_by_policy-Keeps now a permission (raise (approval_needed b p reason)) =
      Keeps-bind _ _ (deny-Keeps now a.agent_id a.parent_agent_id permission reason)
        (λ _. Keeps-throw _)
  denied_by_policy-Keeps now a permission (raise e) = search keeps_rules

  check_policy-Keeps :
      (now : ℕ) (a : Agent) (permission : String) → Keeps P (check_policy now a permission)
  unfolding check_policy
  check_policy-Keeps now a permission = record {
    from = λ m h.
        (denied_by_policy-Keeps now a permission _).from _ (o.carry (same_authority refl refl) h);
  }

  holds-Keeps : (now : ℕ) (a : Agent) (p : String) → Keeps P (holds now a p)
  unfolding holds
  holds-Keeps now a p = search (keeps_rules, permits-Keeps)

  check_permissions-Keeps :
      (now : ℕ) (a : Agent) (ps : List String) → Keeps P (check_permissions now a ps)
  unfolding check_permissions
  check_permissions-Keeps now a [] = Keeps-pure tt
  check_permissions-Keeps now a (p ∷ ps) = Keeps-bind _ _ (holds-Keeps now a p) λ held.
      Keeps-bind _ _ (search (keeps_rules, refuse-Keeps))
        λ _. Keeps-bind _ _ (check_policy-Keeps now a p) λ _. check_permissions-Keeps now a ps

  pub authorize-Keeps : (now : ℕ) (i tool_id : String) → Keeps P (authorize now i tool_id)
  unfolding authorize
  authorize-Keeps now i tool_id =
      search (keeps_rules, get_agent-Keeps, refuse-Keeps, check_permissions-Keeps) depth 14

  pub check_tools-Keeps :
      (now : ℕ) (p : Agent) (requested tools : List String)
      → Keeps P (check_tools now p requested tools)
  unfolding check_tools
  check_tools-Keeps now p requested [] = Keeps-pure tt
  check_tools-Keeps now p requested (t ∷ ts) = Keeps-bind _ _ (Keeps-reads _) λ _.
      Keeps-bind _ _ (search (keeps_rules, refuse-Keeps)) λ _. check_tools-Keeps now p requested ts

pub ruleset agents_rules =
    (keeps_rules, note-Keeps, refuse-Keeps, get_agent-Keeps, owned_child-Keeps)
