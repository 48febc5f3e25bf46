-- ===== src/Autonomy/Executor/Success.antt =====
-- What a successful result of `perform` shows of the action.
use brainless_agent.Common.{
  Bool, true, false, Option, none, some, ◌≡◌, ◌≢◌, refl, sym, ◌∙◌, subst, ◌⊎◌, inl, inr, contains,
  ok, pure, reads, ◌>>=◌, if◌then◌else◌,
}
use brainless_agent.Common.Dict.{Dict, get}
use brainless_agent.Common.Cases.{bind_cases}
use brainless_agent.Agents.Manager.{Manager}
use brainless_agent.Agents.Tools.{ToolSpec}
use brainless_agent.Autonomy.Actions.{ComputerAction, ErrorCode}
use brainless_agent.Autonomy.Gates.{ActionContract, ModeDecision, decision}
use brainless_agent.Autonomy.Governor.{GovernorOutcome, GovernorDecision, evaluate, one}
use brainless_agent.Autonomy.Executor.{
  Runtime, Environment, gates, gate_tool, plain, after_governor, gate_mode, after_mode,
  gate_contract, ask, ask_handler,
}
use brainless_agent.Autonomy.Executor.Consent.{
  Agreed, Same, SaidYes, Later, ask_handler-Same, ask_handler-SaidYes,
}
use brainless_agent.Autonomy.Executor.Mediation.{Passing, Passing-map, contract-Passing}

-- What the gates from the mode on let pass, when the mode decided `d`.
pub record Allowed {W V : Type 0} (env : Environment W V) (action : ComputerAction V)
    (d : ModeDecision) (w : W) (m : Manager) (contracts : Dict (ActionContract V)) : Type 0 where
  pub consent : (d ≡ ModeDecision.allow) ⊎ (d ≡ ModeDecision.approval) × SaidYes env action w
  pub agreed : Agreed env action w m contracts

-- Every gate let the action pass: its tool is registered and needs the permission that it names; the
-- governor does not deny it; the mode allows it, or a person who was asked in the call said yes where
-- the governor or the mode wants an approval; its contract fits and held in a state that was observed
-- in the call; and the global policy approves its permission by itself, or for this agent by an
-- approval from before or by a person who was asked in the call.
pub record Mediated {W V : Type 0} (env : Environment W V) (action : ComputerAction V)
    (r : Runtime W V) : Type 0 where
  pub tool : ToolSpec
  pub registered : get action.action_type r.manager.tools ≡ some tool
  pub permitted : contains action.permission tool.required_permissions ≡ true
  pub governed : GovernorOutcome
  pub judged : evaluate action tool one r.governor ≡ ok governed
  pub allowed : governed.decision ≢ GovernorDecision.deny
  pub mode : ModeDecision
  pub decided :
      (governed.decision ≡ GovernorDecision.approval) × (mode ≡ ModeDecision.approval)
      ⊎ (mode ≡ decision r.mode tool)
  pub cleared : Allowed env action mode r.outside r.manager r.contracts

module _ {W V : Type 0} (env : Environment W V) (action : ComputerAction V) where
  mode-Passing :
      (d : ModeDecision) (r : Runtime W V)
      → Passing (Allowed env action d r.outside r.manager r.contracts) (gate_mode env action d r)
  unfolding gate_mode ask after_mode pure
  mode-Passing ModeDecision.deny r = tt
  mode-Passing ModeDecision.allow r =
      Passing-map _ _ (λ a. record { consent = inl refl; agreed = a })
        (gate_contract env action "auto_approve" "not_required" r)
        (contract-Passing env action r.outside "auto_approve" "not_required" r Later.now)
  mode-Passing ModeDecision.approval r =
      bind_cases
        (Passing (Allowed env action ModeDecision.approval r.outside r.manager r.contracts)) _ _ r
        (λ o x. answered o _ x (
          (ask_handler-Same env action env.approval_handler refl).from r
            (record { managers = refl; same = refl; later = Later.now })))
        (λ x y. tt)
    where
      answered :
          (o : Option Bool) (s : Runtime W V)
          → (ask_handler env action env.approval_handler r).0 ≡ ok o
          → Same env action r.outside r.manager r.contracts s
          → Passing
              (Allowed env action ModeDecision.approval r.outside r.manager r.contracts)
              (after_mode env action o s)
      answered none s x h = tt
      answered (some false) s x h = tt
      answered (some true) s x h =
          Passing-map _ _
            (λ a. record {
              consent =
                  inr
                    (refl, ask_handler-SaidYes env action env.approval_handler r refl Later.now x);
              agreed =
                  subst (λ (m : Manager). Agreed env action r.outside m r.contracts) h.managers
                    (subst (Agreed env action r.outside s.manager) h.same a);
            })
            (gate_contract env action "mode_approval" "approved" s)
            (contract-Passing env action r.outside "mode_approval" "approved" s h.later)

  pub gates-Passing : (r : Runtime W V) → Passing (Mediated env action r) (gates env action r)
  unfolding gates gate_tool after_governor pure reads
  gates-Passing r = registered (get action.action_type r.manager.tools) refl
    where
      judged :
          (tool : ToolSpec)
          → get action.action_type r.manager.tools ≡ some tool
          → contains action.permission tool.required_permissions ≡ true
          → (g : GovernorOutcome) → evaluate action tool one r.governor ≡ ok g
          → (d : GovernorDecision) → g.decision ≡ d
          → Passing (Mediated env action r) (after_governor env action tool g.reason d r)
      judged tool t p g j GovernorDecision.deny e = tt
      judged tool t p g j GovernorDecision.approval e =
          Passing-map _ _
            (λ a. record {
              tool = tool;
              registered = t;
              permitted = p;
              governed = g;
              judged = j;
              allowed = λ d. deny≢approval (sym d ∙ e);
              mode = ModeDecision.approval;
              decided = inl (e, refl);
              cleared = a;
            })
            (gate_mode env action ModeDecision.approval r) (mode-Passing ModeDecision.approval r)
        where
          deny≢approval : GovernorDecision.deny ≢ GovernorDecision.approval
          deny≢approval x = cc
      judged tool t p g j GovernorDecision.allow e =
          Passing-map _ _
            (λ a. record {
              tool = tool;
              registered = t;
              permitted = p;
              governed = g;
              judged = j;
              allowed = λ d. deny≢allow (sym d ∙ e);
              mode = decision r.mode tool;
              decided = inr refl;
              cleared = a;
            })
            (gate_mode env action (decision r.mode tool) r) (mode-Passing (decision r.mode tool) r)
        where
          deny≢allow : GovernorDecision.deny ≢ GovernorDecision.allow
          deny≢allow x = cc

      permitted :
          (tool : ToolSpec)
          → get action.action_type r.manager.tools ≡ some tool
          → (b : Bool) → contains action.permission tool.required_permissions ≡ b
          → Passing (Mediated env action r) (
              (if b
                  then (do
                    governed ← reads (λ r. evaluate action tool one r.governor)
                    after_governor env action tool governed.reason governed.decision)
                  else pure (
                      plain ErrorCode.invalid_argument
                        "Action permission does not match registered tool"))
                r)
      permitted tool t false p = tt
      permitted tool t true p =
          bind_cases (Passing (Mediated env action r)) _ _ r
            (λ g j. judged tool t p g j g.decision refl) (λ x y. tt)

      registered :
          (o : Option ToolSpec)
          → get action.action_type r.manager.tools ≡ o
          → Passing (Mediated env action r) (gate_tool env action o r)
      registered none e = tt
      registered (some tool) e =
          permitted tool e (contains action.permission tool.required_permissions) refl
