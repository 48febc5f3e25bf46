-- ===== src/Autonomy/Governor/Budget.antt =====
-- What `evaluate` lets through, and why a budget that is used up stays so.
use brainless_agent.Common.{
  ℕ, ◌<◌, ◌≤◌, String, Bool, true, false, ◌||◌, some, ◌≡◌, ◌≢◌, ◌∙◌, sym, subst, ◌⊎◌, inl, inr,
  List, arith, eq_iff, ok, contains, is_empty, ◌↔◌,
}
use brainless_agent.Common.Dict.{get, modify, get-put, get-modify_forth}
use brainless_agent.Agents.Tools.{ToolSpec}
use brainless_agent.Autonomy.Actions.{ComputerAction}
use brainless_agent.Autonomy.Governor.{
  AutonomyGovernor, MissionContract, BudgetUsage, GovernorOutcome, GovernorDecision, enroll, unused,
  used, evaluate, judge, is_high,
}
use brainless_agent.Autonomy.Governor.Bound.{
  Step, Later, now, more, register-cases, record_result-cases,
}

-- The action is inside the contract and the budget.
pub record Within {V : Type 0} (action : ComputerAction V) (c : MissionContract) (u : BudgetUsage)
    : Type 0 where
  pub not_forbidden : contains action.action_type c.forbidden_actions ≡ false
  pub tool_allowed :
      (is_empty c.allowed_tools || contains action.action_type c.allowed_tools) ≡ true
  pub permission_allowed :
      (is_empty c.allowed_permissions || contains action.permission c.allowed_permissions) ≡ true
  pub actions_left : u.actions < c.max_actions
  pub failures_left : u.failures < c.max_failures

module _ {V : Type 0} (action : ComputerAction V) (tool : ToolSpec) (confidence : ℕ) (i : String)
    (c : MissionContract) (u : BudgetUsage) where
  judge-Within :
      (judge action tool confidence i c u).decision ≢ GovernorDecision.deny → Within action c u
  unfolding judge
  judge-Within h = record {
    not_forbidden = ground (arith, h);
    tool_allowed = ground (arith, h);
    permission_allowed = ground (arith, h);
    actions_left = ground (arith, h);
    failures_left = ground (arith, h);
  }

  judge-allow :
      (judge action tool confidence i c u).decision ≡ GovernorDecision.allow
      ↔ Within action c u
        × (c.minimum_confidence ≤ confidence)
        × (is_high tool.risk ≡ false)
        × (tool.destructive ≡ false)
  unfolding judge
  judge-allow = (
    (λ e. (
      judge-Within (λ d. absurd (allow≢deny (sym e ∙ d))),
      ground (arith, e),
      ground (arith, e),
      ground (arith, e),
    )),
    λ h. ground (
      arith, h.0.not_forbidden, h.0.tool_allowed, h.0.permission_allowed, h.0.actions_left,
      h.0.failures_left, h.1, h.2, h.3,
    ),
  )
    where
      allow≢deny : GovernorDecision.allow ≡ GovernorDecision.deny → ⊥
      allow≢deny e = cc

  Within-judge :
      Within action c u → (judge action tool confidence i c u).decision ≢ GovernorDecision.deny
  unfolding judge
  Within-judge w = ground (
    arith, w.not_forbidden, w.tool_allowed, w.permission_allowed, w.actions_left, w.failures_left,
  )

-- Under a mission's contract `evaluate` lets an action through, at once or with an approval, just
-- when its kind and permission are inside the contract and both budgets have something left; and
-- at once just when besides it is sure enough and the tool is neither of high risk nor destructive.
pub evaluate-authority :
    {V : Type 0} (action : ComputerAction V) (tool : ToolSpec) (confidence : ℕ)
    (g : AutonomyGovernor) (i : String) (c : MissionContract) (u : BudgetUsage)
    → get action.task_id g.tasks ≡ some i
    → get i g.contracts ≡ some c
    → get i g.usage ≡ some u
    → (o : GovernorOutcome) × (evaluate action tool confidence g ≡ ok o)
      × ((o.decision ≢ GovernorDecision.deny) ↔ Within action c u)
      × ((o.decision ≡ GovernorDecision.allow) ↔ (
          Within action c u
          × (c.minimum_confidence ≤ confidence)
          × (is_high tool.risk ≡ false)
          × (tool.destructive ≡ false)))
unfolding evaluate
evaluate-authority action tool confidence g i c u bound at_c at_u = (
  judge action tool confidence i c u,
  ground (arith, bound, at_c, at_u),
  (judge-Within action tool confidence i c u, Within-judge action tool confidence i c u),
  judge-allow action tool confidence i c u,
)

exhausted-judge :
    {V : Type 0} (action : ComputerAction V) (tool : ToolSpec) (confidence : ℕ) (i : String)
    (c : MissionContract) (u : BudgetUsage)
    → (c.max_actions ≤ u.actions) ⊎ (c.max_failures ≤ u.failures)
    → (judge action tool confidence i c u).decision ≡ GovernorDecision.deny
unfolding judge
exhausted-judge action tool confidence i c u (inl out) = ground (arith, out)
exhausted-judge action tool confidence i c u (inr out) = ground (arith, out)

-- At least so much of the budget of the mission is used.
pub record Spent (i : String) (actions failures : ℕ) (g : AutonomyGovernor) : Type 0 where
  pub usage : BudgetUsage
  pub found : get i g.usage ≡ some usage
  pub enough_actions : actions ≤ usage.actions
  pub enough_failures : failures ≤ usage.failures

module _ (i : String) (a f : ℕ) where
  enroll-Spent :
      (c : MissionContract) (ts : List String) (g : AutonomyGovernor)
      → Spent i a f g
      → Spent i a f (enroll c ts g)
  enroll-Spent c ts g h = record {
    usage = h.usage;
    found = ground (arith, get-put c.mission_id i unused g.usage, eq_iff c.mission_id i, h.found);
    enough_actions = h.enough_actions;
    enough_failures = h.enough_failures;
  }

  used-Spent :
      (j : String) (success : Bool) (g : AutonomyGovernor)
      → Spent i a f g
      → Spent i a f (record g { usage = modify j (used success) g.usage })
  used-Spent j success g h =
      let (u, at, how) = get-modify_forth j (used success) g.usage i h.found in
      record {
        usage = u;
        found = at;
        enough_actions = elim how [
          | inl new ↦ ground (arith, new.1, h.enough_actions)
          | inr same ↦ ground (arith, same, h.enough_actions)
        ];
        enough_failures = elim how [
          | inl new ↦ ground (arith, new.1, h.enough_failures)
          | inr same ↦ ground (arith, same, h.enough_failures)
        ];
      }

  Step-Spent : {g h : AutonomyGovernor} → Step g h → Spent i a f g → Spent i a f h
  Step-Spent {g} (Step.registers c ts) s = elim (register-cases c ts g) [
    | inl same ↦ subst (Spent i a f) (sym same) s
    | inr new ↦ subst (Spent i a f) (sym new) (enroll-Spent c ts g s)
  ]
  Step-Spent {g} (Step.records t success) s = elim (record_result-cases t success g) [
    | inl same ↦ subst (Spent i a f) (sym same) s
    | inr (j, bound, new) ↦ subst (Spent i a f) (sym new) (used-Spent j success g s)
  ]

  Later-Spent : {g h : AutonomyGovernor} → Later g h → Spent i a f g → Spent i a f h
  Later-Spent now s = s
  Later-Spent (more l step) s = Step-Spent step (Later-Spent l s)

-- Once a mission has used up one of its budgets, `evaluate` denies every action of its tasks as
-- long as the mission keeps these limits: no later results or registrations, not even of the
-- mission's own contract again, give budget back.
pub exhausted_stays :
    {V : Type 0} {g h : AutonomyGovernor} (i : String) (c c' : MissionContract) (u : BudgetUsage)
    (action : ComputerAction V) (tool : ToolSpec) (confidence : ℕ)
    → get i g.usage ≡ some u
    → (c.max_actions ≤ u.actions) ⊎ (c.max_failures ≤ u.failures)
    → Later g h
    → get action.task_id h.tasks ≡ some i
    → get i h.contracts ≡ some c'
    → c'.max_actions ≡ c.max_actions
    → c'.max_failures ≡ c.max_failures
    → (o : GovernorOutcome) × (evaluate action tool confidence h ≡ ok o)
      × (o.decision ≡ GovernorDecision.deny)
unfolding evaluate judge
exhausted_stays {h = h} i c c' u action tool confidence at_u out later bound at_c' same_a same_f =
    let s = Later-Spent i u.actions u.failures later (record {
      usage = u;
      found = at_u;
      enough_actions = omega arith;
      enough_failures = omega arith;
    }) in
    (
      judge action tool confidence i c' s.usage,
      ground (arith, bound, at_c', s.found),
      exhausted-judge action tool confidence i c' s.usage (elim out [
        | inl o ↦ inl (omega (arith, o, s.enough_actions, same_a))
        | inr o ↦ inr (omega (arith, o, s.enough_failures, same_f))
      ]),
    )
