-- ===== src/Agents/Mediation/Guards.antt =====
-- The guards of `execute_tool` let a call pass only if it is authorized.
use brainless_agent.Common.{
  ℕ, String, true, some, ◌≡◌, refl, sym, ◌∙◌, ap, subst, ◌⊎◌, inl, inr, List, [], ◌∷◌, arith, ◌==◌,
  eq_iff, contains, Result, ok, pure, throw, any, Bool-cases, reads, ◌>>=◌,
}
use brainless_agent.Common.Cases.{read_cases, guard_cases, bind_cases, throw-Raises}
use brainless_agent.Common.Dict.{get, values, keep_values_idem}
use brainless_agent.Safety.Permissions.{
  ApprovalMode, Approvals, PermissionPolicy, is_approved, remove_approval, mode_of, check,
}
use brainless_agent.Safety.Leases
use brainless_agent.Safety.Leases.{prune, permits, matches}
use brainless_agent.Agents.Models.{Agent, AgentStatus}
use brainless_agent.Agents.Tools.{ToolSpec}
use brainless_agent.Agents.Tools
use brainless_agent.Agents.Manager.{
  Manager, get_agent, has_status, deny, holds, check_policy, check_permissions, authorize,
}
use brainless_agent.Agents.Authority.Confined.{Holds}
use brainless_agent.Agents.Reads.{state-get_agent, get_agent-ok, refuse-Raises}

-- A lease that is active at `now` gives the agent the permission for its current task.
abbrev pub Leased : ℕ → Manager → Agent → String → Type 0
Leased now m a p =
    any (values (prune now m.leases)) (matches now a.agent_id p a.current_task_id) ≡ true

-- What the global policy asks for a permission: nothing, or that a person approved it for the agent.
abbrev pub Approved : PermissionPolicy → (agent_id permission : String) → Type 0
Approved policy a p =
    (mode_of policy p ≡ ApprovalMode.auto_approve)
    ⊎ (mode_of policy p ≡ ApprovalMode.require_approval) × (is_approved a p policy.approved ≡ true)

pub record Cleared (now : ℕ) (m : Manager) (a : Agent) (p : String) : Type 0 where
  pub has : Holds a p ⊎ Leased now m a p
  pub allowed : Approved m.policy a.agent_id p

-- The agent runs, was granted the tool, and each permission of the tool is held or leased, and is
-- approved by the global policy by itself or by a person.
pub record Authorized (now : ℕ) (m : Manager) (i tool_id : String) : Type 0 where
  pub agent : Agent
  pub found : get i m.agents ≡ some agent
  pub runs : has_status AgentStatus.running agent ≡ true
  pub granted : contains tool_id agent.available_tools ≡ true
  pub tool : ToolSpec
  pub registered : get tool_id m.tools ≡ some tool
  pub cleared : (p : String) → contains p tool.required_permissions ≡ true → Cleared now m agent p

-- The checks of one permission leave what decides about the others; they may use up approvals.
record SameGates (now : ℕ) (m n : Manager) : Type 0 where
  modes : n.policy.modes ≡ m.policy.modes
  pruned : prune now n.leases ≡ prune now m.leases
  fewer :
      (a p : String)
      → is_approved a p n.policy.approved ≡ true
      → is_approved a p m.policy.approved ≡ true

same_mode :
    {now : ℕ} {m n : Manager} (p : String)
    → SameGates now m n
    → mode_of n.policy p ≡ mode_of m.policy p
unfolding mode_of
same_mode p g = rw g.modes

SameGates-Approved :
    {now : ℕ} {m n : Manager} (a p : String)
    → SameGates now m n
    → Approved n.policy a p
    → Approved m.policy a p
SameGates-Approved a p g (inl auto) = inl (sym (same_mode p g) ∙ auto)
SameGates-Approved a p g (inr (asks, given)) = inr (sym (same_mode p g) ∙ asks, g.fewer a p given)

SameGates-Cleared :
    {now : ℕ} {m n : Manager} (a : Agent) (p : String)
    → SameGates now m n
    → Cleared now n a p
    → Cleared now m a p
SameGates-Cleared {now} {m} {n} a p g c = record {
  has = elim c.has [
    | inl held ↦ inl held
    | inr leased ↦ inr (
        subst (λ l. any (values l) (matches now a.agent_id p a.current_task_id) ≡ true) g.pruned
          leased)
  ];
  allowed = SameGates-Approved a.agent_id p g c.allowed;
}

-- What is left after a removal was there before.
approved-remove :
    (a p b q : String) (approved : Approvals)
    → is_approved a p (remove_approval b q approved) ≡ true
    → is_approved a p approved ≡ true
unfolding is_approved remove_approval
approved-remove a p b q [] e = e
approved-remove a p b q ((c, d) ∷ rest) e = ground (arith, e, approved-remove a p b q rest)

module _ (now : ℕ) (a : Agent) (p : String) (m : Manager) where
  holds-SameGates : SameGates now m (holds now a p m).1
  unfolding holds pure permits prune
  holds-SameGates = record {
    modes = ground arith;
    pruned = ground (arith, keep_values_idem (λ l. Leases.active now l) m.leases);
    fewer = λ b q e. ground (arith, e);
  }

  holds-ok : (holds now a p m).0 ≡ ok true → Holds a p ⊎ Leased now m a p
  unfolding holds pure permits
  holds-ok e = elim (Bool-cases (contains p a.permissions)) [
    | inl held ↦ inl held
    | inr not_held ↦ inr (ground arith)
  ]

  check_policy-SameGates : SameGates now m (check_policy now a p m).1
  unfolding check_policy check deny pure throw ◌>>=◌
  check_policy-SameGates = record {
    modes = ground arith;
    pruned = ground arith;
    fewer = λ b q e. ground (arith, e, approved-remove b q a.agent_id p m.policy.approved);
  }

  check_policy-ok : (check_policy now a p m).0 ≡ ok tt → Approved m.policy a.agent_id p
  unfolding check_policy check deny pure throw ◌>>=◌
  check_policy-ok e = ground (arith, e)

SameGates-trans :
    {now : ℕ} {m n o : Manager} → SameGates now m n → SameGates now n o → SameGates now m o
SameGates-trans f g = record {
  modes = g.modes ∙ f.modes;
  pruned = g.pruned ∙ f.pruned;
  fewer = λ a p e. f.fewer a p (g.fewer a p e);
}

check_permissions-ok :
    (now : ℕ) (a : Agent) (ps : List String) (m : Manager)
    → (check_permissions now a ps m).0 ≡ ok tt
    → (p : String) → contains p ps ≡ true
    → Cleared now m a p
unfolding check_permissions contains
check_permissions-ok now a [] m = λ e p has. cc
check_permissions-ok now a (q ∷ qs) m =
    bind_cases Goal (holds now a q) _ m
      (λ held heard.
        guard_cases Goal held _ _ (holds now a q m).1
          (refuse-Raises now a.agent_id a.parent_agent_id q _)
          (λ yes_held.
            bind_cases Goal (check_policy now a q) (λ _. check_permissions now a qs)
              (holds now a q m).1
              (λ _ passed done p has.
                let first = holds-SameGates now a q m in
                let both =
                  SameGates-trans first (check_policy-SameGates now a q (holds now a q m).1) in
                elim (Bool-cases (p == q)) [
                  | inl same ↦ subst (Cleared now m a) (sym ((eq_iff p q).0 same)) (record {
                    has = holds-ok now a q m (heard ∙ ap (λ b. ok b) yes_held);
                    allowed =
                        SameGates-Approved a.agent_id q first
                          (check_policy-ok now a q (holds now a q m).1 passed);
                  })
                  | inr other ↦
                      SameGates-Cleared a p both
                        (check_permissions-ok now a qs _ done p (ground arith))
                ])
              (λ e _ never. absurd (cc)))
          (λ _ never. absurd (cc)))
      (λ e _ never. absurd (cc))
  where
    Goal : Result (Unit {0}) × Manager → Type 0
    Goal r = r.0 ≡ ok tt → (p : String) → contains p (q ∷ qs) ≡ true → Cleared now m a p

lookup-ok :
    (i : String) (m : Manager) (t : ToolSpec)
    → Tools.lookup i m.tools ≡ ok t
    → get i m.tools ≡ some t
unfolding Tools.lookup
lookup-ok i m t e = ground arith

-- Whatever passes the guards is authorized.
pub authorize-ok :
    (now : ℕ) (i tool_id : String) (m : Manager)
    → (authorize now i tool_id m).0 ≡ ok tt
    → Authorized now m i tool_id
unfolding authorize
authorize-ok now i tool_id m =
    read_cases Goal (get_agent i) _ m (state-get_agent i m)
      (λ a at.
        guard_cases Goal (has_status AgentStatus.running a) _ _ m (throw-Raises _)
          (λ runs.
            guard_cases Goal (contains tool_id a.available_tools) _ _ m
              (refuse-Raises now a.agent_id a.parent_agent_id tool_id _)
              (λ granted.
                read_cases Goal (reads (λ n. Tools.lookup tool_id n.tools)) _ m
                  (unfold reads in refl)
                  (λ t known done. record {
                    agent = a;
                    found = get_agent-ok i m a at;
                    runs = runs;
                    granted = granted;
                    tool = t;
                    registered = lookup-ok tool_id m t (unfold reads in known);
                    cleared = check_permissions-ok now a t.required_permissions m done;
                  })
                  (λ e _ never. absurd (cc)))
              (λ _ never. absurd (cc)))
          (λ _ never. absurd (cc)))
      (λ e _ never. absurd (cc))
  where
    Goal : Result (Unit {0}) × Manager → Type 0
    Goal r = r.0 ≡ ok tt → Authorized now m i tool_id
