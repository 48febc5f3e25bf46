-- ===== src/Autonomy/Executor/Consent.antt =====
-- What was asked and observed in a call, and what the gates want of it.
use brainless_agent.Common.{
  continue, reads, ◌⊎◌, ok≢raise, String, Bool, true, false, Option, none, some, ◌≡◌, refl,
  contains, Result, ok, raise, pure, ◌>>=◌,
}
use brainless_agent.Common.Dict.{Dict, get}
use brainless_agent.Common.Cases.{bind_cases}
use brainless_agent.Common.Keeps.{Keeps, keeps_rules, Keeps-pure, Keeps-bind}
use brainless_agent.Safety.Permissions.{ApprovalMode, PermissionPolicy, mode_of, is_approved}
use brainless_agent.Agents.Manager.{Manager}
use brainless_agent.Autonomy.Actions.{ComputerAction}
use brainless_agent.Autonomy.Gates.{ActionContract, validate_contract}
use brainless_agent.Autonomy.World.{ComputerState, getattr}
use brainless_agent.Autonomy.Executor.{
  Runtime, Environment, outward, attempt, capture_state, try_contract, ask_handler, same_or_nothing,
}

-- The worlds that a call comes through from `w` on while it observes and asks.
pub data Later {W V : Type 0} (env : Environment W V) (action : ComputerAction V) (w : W)
    : W → Type 0 where
  now : Later env action w w
  observed : {v : W} → Later env action w v → Later env action w (env.observe v).1
  asked :
      {v : W} (handler : ComputerAction V → W → Result Bool × W)
      → env.approval_handler ≡ some handler
      → Later env action w v
      → Later env action w (handler action v).1

-- A person was asked about the action and said yes.
pub record SaidYes {W V : Type 0} (env : Environment W V) (action : ComputerAction V) (w : W)
    : Type 0 where
  pub handler : ComputerAction V → W → Result Bool × W
  pub there : env.approval_handler ≡ some handler
  pub when : W
  pub later : Later env action w when
  pub answer : (handler action when).0 ≡ ok true

-- The state in which the contract was found to hold was observed.
pub record Holding {W V : Type 0} (env : Environment W V) (action : ComputerAction V) (w : W)
    (contract : ActionContract V) : Type 0 where
  pub state : ComputerState V
  pub when : W
  pub later : Later env action w when
  pub seen : (env.observe when).0 ≡ ok state
  pub holds :
      validate_contract
        (same_or_nothing env.values)
        (getattr env.values state)
        contract
        action.permission
      ≡ ok tt

-- What the policy asks for: nothing, or an approval, from before the call or by a person now.
abbrev pub Consented :
    {W V : Type 0} → Environment W V → ComputerAction V → W → PermissionPolicy → Type 0
Consented env action w policy =
    (mode_of policy action.permission ≡ ApprovalMode.auto_approve)
    ⊎ (mode_of policy action.permission ≡ ApprovalMode.require_approval)
      × ((is_approved action.agent_id action.permission policy.approved ≡ true)
          ⊎ SaidYes env action w)

-- What the gates that follow the mode ask of the manager, the contracts and the world.
pub record Agreed {W V : Type 0} (env : Environment W V) (action : ComputerAction V) (w : W)
    (m : Manager) (contracts : Dict (ActionContract V)) : Type 0 where
  pub contract :
      (c : ActionContract V)
      → get action.action_type contracts ≡ some c
      → (c.tool ≡ action.action_type)
        × (contains action.permission c.required_permissions ≡ true)
        × Holding env action w c
  pub policy : Consented env action w m.policy

-- Nothing of the manager and the contracts has changed, and the world only by the call.
pub record Same {W V : Type 0} (env : Environment W V) (action : ComputerAction V) (w : W)
    (m : Manager) (contracts : Dict (ActionContract V)) (r : Runtime W V) : Type 0 where
  pub managers : r.manager ≡ m
  pub same : r.contracts ≡ contracts
  pub later : Later env action w r.outside

module _ {W V : Type 0} (env : Environment W V) (action : ComputerAction V) {w : W} {m : Manager}
    {c : Dict (ActionContract V)} where
  observe-Same : Keeps (Same env action w m c) (outward {V = V} env.observe)
  unfolding outward
  observe-Same = record {
    from = λ r h. record { managers = h.managers; same = h.same; later = Later.observed h.later };
  }

  handler-Same :
      (handler : ComputerAction V → W → Result Bool × W)
      → env.approval_handler ≡ some handler
      → Keeps (Same env action w m c) (outward {V = V} (handler action))
  unfolding outward
  handler-Same handler e = record {
    from = λ r h. record {
      managers = h.managers;
      same = h.same;
      later = Later.asked handler e h.later;
    };
  }

  capture_state-Same :
      (source : String) (evidence : Option String) (state : ComputerState V)
      → Keeps (Same env action w m c) (capture_state env source evidence state)
  unfolding capture_state
  capture_state-Same source evidence state = record {
    from = λ r h. record { managers = h.managers; same = h.same; later = h.later };
  }

  pub ask_handler-Same :
      (o : Option (ComputerAction V → W → Result Bool × W))
      → env.approval_handler ≡ o
      → Keeps (Same env action w m c) (ask_handler env action o)
  unfolding ask_handler
  ask_handler-Same none e = Keeps-pure none
  ask_handler-Same (some handler) e =
      Keeps-bind _ _ (handler-Same handler e) (λ answer. Keeps-pure (some answer))

  pub try_contract-Same :
      (contract : ActionContract V)
      → Keeps (Same env action w m c) (attempt (try_contract env action contract))
  unfolding try_contract attempt
  try_contract-Same contract = record { from = inner.from }
    where
      inner : Keeps (Same env action w m c) (try_contract env action contract)
      inner = search (keeps_rules, observe-Same, capture_state-Same) depth 15

module _ {W V : Type 0} (env : Environment W V) (action : ComputerAction V) {w : W} where
  -- Who answered was asked.
  pub ask_handler-SaidYes :
      (o : Option (ComputerAction V → W → Result Bool × W)) (r : Runtime W V)
      → env.approval_handler ≡ o
      → Later env action w r.outside
      → (ask_handler env action o r).0 ≡ ok (some true)
      → SaidYes env action w
  unfolding ask_handler outward pure ◌>>=◌
  ask_handler-SaidYes none r e l = λ never. absurd (none≢ok never)
    where
      none≢ok : ◌≡◌ {A = Result (Option Bool)} (ok none) (ok (some true)) → ⊥
      none≢ok x = cc
  ask_handler-SaidYes (some handler) r e l = λ heard. record {
    handler = handler;
    there = e;
    when = r.outside;
    later = l;
    answer = go (handler action r.outside).0 _ heard;
  }
    where
      go :
          (x : Result Bool) (s : Runtime W V)
          → (continue x (λ answer. pure (some answer)) s).0 ≡ ok (some true)
          → x ≡ ok true
      go (ok true) s h = refl
      go (ok false) s h = cc
      go (raise x) s h = cc

  pub try_contract-Holding :
      (contract : ActionContract V) (r : Runtime W V)
      → Later env action w r.outside
      → (try_contract env action contract r).0 ≡ ok tt
      → Holding env action w contract
  unfolding try_contract outward reads
  try_contract-Holding contract r l =
      bind_cases Goal (outward env.observe) _ r
        (λ state seen.
          bind_cases Goal (capture_state env "precondition" none state) _ _
            (λ shot _ done. record {
              state = state;
              when = r.outside;
              later = l;
              seen = seen;
              holds = done;
            })
            (λ e _ never. absurd (ok≢raise never)))
        (λ e _ never. absurd (ok≢raise never))
    where
      Goal : Result (Unit {0}) × Runtime W V → Type 0
      Goal o = o.0 ≡ ok tt → Holding env action w contract
