-- ===== src/Autonomy/Governor/Bound.antt =====
-- Every task that the governor knows belongs to a mission with a contract and a budget.
use brainless_agent.Common.{
  ℕ, String, Bool, true, none, some, ◌≡◌, refl, ◌∙◌, sym, subst, false≢true, ◌⊎◌, inl, inr, List,
  [], ◌∷◌, arith, eq_iff, if◌then◌else◌, ok, ◌==◌, pure, throw, Option-cases, Bool-cases,
}
use brainless_agent.Common.Dict.{Dict, get, put, has, modify, get-put, get-modify}
use brainless_agent.Agents.Tools.{ToolSpec}
use brainless_agent.Autonomy.Actions.{ComputerAction}
use brainless_agent.Autonomy.Governor.{
  AutonomyGovernor, MissionContract, GovernorOutcome, new_governor, register, bind_tasks,
  setdefault, enroll, unused, used, record_result, evaluate, judge, outcome, GovernorDecision,
}

-- The operations that change the governor, in any order.
pub data Step (g : AutonomyGovernor) : AutonomyGovernor → Type 0 where
  registers : (c : MissionContract) (task_ids : List String) → Step g (register c task_ids g).1
  records : (task_id : String) (success : Bool) → Step g (record_result task_id success g).1

pub data Reach : AutonomyGovernor → Type 0 where
  here : Reach new_governor
  next : {g h : AutonomyGovernor} → Reach g → Step g h → Reach h

pub data Later (g : AutonomyGovernor) : AutonomyGovernor → Type 0 where
  now : Later g g
  more : {h k : AutonomyGovernor} → Later g h → Step h k → Later g k

pub record IsBound (g : AutonomyGovernor) : Type 0 where
  pub contract_of :
      (t i : String) → get t g.tasks ≡ some i → (c : MissionContract) × (get i g.contracts ≡ some c)
  pub usage_of : (i : String) → has i g.contracts ≡ true → has i g.usage ≡ true

pub has-some :
    {V : Type 0} (k : String) (d : Dict V) → has k d ≡ true → (v : V) × (get k d ≡ some v)
has-some k d h = elim (Option-cases (get k d)) [ inl e ↦ ground (arith, e) | inr found ↦ found ]

bind_tasks-get :
    (i t j : String) (ts : List String) (tasks : Dict String)
    → get t (bind_tasks i ts tasks) ≡ some j
    → (j ≡ i) ⊎ (get t tasks ≡ some j)
unfolding bind_tasks
bind_tasks-get i t j [] tasks e = inr e
bind_tasks-get i t j (k ∷ ks) tasks e = elim (bind_tasks-get i t j ks (put k i tasks) e) [
  | inl same ↦ inl same
  | inr before ↦ ground (arith, get-put k t i tasks, before)
]

pub has-setdefault :
    {V : Type 0} (k j : String) (v : V) (d : Dict V)
    → has j (setdefault k v d) ≡ (if k == j then true else has j d)
has-setdefault k j v d = ground (arith, get-put k j v d, eq_iff k j)

module _ (c : MissionContract) (ts : List String) (g : AutonomyGovernor) where
  pub register-cases : ((register c ts g).1 ≡ g) ⊎ ((register c ts g).1 ≡ enroll c ts g)
  unfolding register pure throw
  register-cases = ground arith

  enroll-contract :
      (i : String) (c' : MissionContract)
      → get i g.contracts ≡ some c'
      → (c'' : MissionContract) × (get i (enroll c ts g).contracts ≡ some c'')
  enroll-contract i c' found = elim (Bool-cases (c.mission_id == i)) [
    | inl same ↦ (c, get-put c.mission_id i c g.contracts ∙ rw same refl)
    | inr other ↦ (c', get-put c.mission_id i c g.contracts ∙ rw other found)
  ]

  enroll-IsBound : IsBound g → IsBound (enroll c ts g)
  enroll-IsBound h = record {
    contract_of = λ t i e. elim (bind_tasks-get c.mission_id t i ts g.tasks e) [
      | inl same ↦
          (c, get-put c.mission_id i c g.contracts ∙ ground (arith, eq_iff c.mission_id i, same))
      | inr before ↦ let (c', found) = h.contract_of t i before in enroll-contract i c' found
    ];
    usage_of = λ i e. ground (
      arith,
      e,
      h.usage_of i,
      has-setdefault c.mission_id i unused g.usage,
      get-put c.mission_id i c g.contracts,
    );
  }

  register-IsBound : IsBound g → IsBound (register c ts g).1
  register-IsBound h = elim register-cases [
    | inl same ↦ subst IsBound (sym same) h
    | inr new ↦ subst IsBound (sym new) (enroll-IsBound h)
  ]

-- What `record_result` does.
pub record_result-cases :
    (t : String) (success : Bool) (g : AutonomyGovernor)
    → ((record_result t success g).1 ≡ g)
      ⊎ ((i : String) × (get t g.tasks ≡ some i)
          × ((record_result t success g).1 ≡ record g { usage = modify i (used success) g.usage }))
unfolding record_result pure throw
record_result-cases t success g = elim (Option-cases (get t g.tasks)) [
  | inl free ↦ inl (ground (arith, free))
  | inr (i, bound) ↦ elim (Option-cases (get i g.usage)) [
    | inl none_left ↦ inl (ground (arith, bound, none_left))
    | inr (u, found) ↦ inr (i, bound, ground (arith, bound, found))
  ]
]

has-modify : {V : Type 0} (k j : String) (f : V → V) (d : Dict V) → has j (modify k f d) ≡ has j d
has-modify k j f d = ground (arith, get-modify k j f d)

record_result-IsBound :
    (t : String) (success : Bool) (g : AutonomyGovernor)
    → IsBound g
    → IsBound (record_result t success g).1
record_result-IsBound t success g h = elim (record_result-cases t success g) [
  | inl same ↦ subst IsBound (sym same) h
  | inr (i, bound, new) ↦ subst IsBound (sym new) (record {
    contract_of = h.contract_of;
    usage_of = λ j e. has-modify i j (used success) g.usage ∙ h.usage_of j e;
  })
]

pub Reach-IsBound : {g : AutonomyGovernor} → Reach g → IsBound g
unfolding get
Reach-IsBound here = record {
  contract_of = λ t i e. absurd (no e);
  usage_of = λ i e. absurd (false≢true e);
}
  where
    no : {i : String} → none ≡ some i → ⊥
    no e = cc
Reach-IsBound (next r (Step.registers c ts)) = register-IsBound c ts _ (Reach-IsBound r)
Reach-IsBound (next r (Step.records t success)) =
    record_result-IsBound t success _ (Reach-IsBound r)

-- After any history of registrations and results, the governor has an answer for every action and
-- takes every result: neither `evaluate` nor `record` raises.
pub Reach-answers :
    {V : Type 0} {g : AutonomyGovernor}
    → Reach g
    → (action : ComputerAction V) (tool : ToolSpec) (confidence : ℕ) (success : Bool)
    → ((o : GovernorOutcome) × (evaluate action tool confidence g ≡ ok o))
      × ((record_result action.task_id success g).0 ≡ ok tt)
unfolding evaluate record_result pure throw
Reach-answers {g = g} r action tool confidence success =
    elim (Option-cases (get action.task_id g.tasks)) [
      | inl free ↦ (
        (outcome GovernorDecision.allow "no_mission_contract" none, ground (arith, free)),
        ground (arith, free),
      )
      | inr (i, bound) ↦
          let h = Reach-IsBound r in
          let (c, at_c) = h.contract_of action.task_id i bound in
          let (u, at_u) = has-some i g.usage (h.usage_of i (rw at_c refl)) in
          (
            (judge action tool confidence i c u, ground (arith, bound, at_c, at_u)),
            ground (arith, bound, at_u),
          )
    ]
