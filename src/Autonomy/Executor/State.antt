-- ===== src/Autonomy/Executor/State.antt =====
-- The objects that `ActionRuntime` owns, what it is given from outside, and the calls of its parts.
-- `W` is the world outside, with the clock, the controller's devices and the people in it.
use brainless_agent.Common.{
  ℕ, String, Bool, Option, none, some, List, [], ◌∷◌, ◌++◌, Result, ok, Error, Exec,
}
use brainless_agent.Common.Dict.{Dict}
use brainless_agent.Agents.Manager.{Manager}
use brainless_agent.Autonomy.Actions.{ComputerAction, ActionResult}
use brainless_agent.Autonomy.Gates.{AutonomyMode, ActionContract, RecoveryStrategy}
use brainless_agent.Autonomy.Governor.{AutonomyGovernor}
use brainless_agent.Autonomy.Proposals.{ActionProposal}
use brainless_agent.Autonomy.World.{Values, ComputerState, WorldSnapshot, capture}
use brainless_agent.Autonomy.World.Model.{WorldModel}
use brainless_agent.Autonomy.Locks.{Locks}

pub record AuditRecord (V : Type 0) : Type 0 where
  pub timestamp : ℕ
  pub agent_id : String
  pub parent_agent_id : Option String
  pub task_id : String
  pub action_id : String
  pub tool : String
  pub permission : String
  pub arguments : Dict V
  pub result : Option String
  pub error : Option String
  pub duration : ℕ
  pub policy_decision : String
  pub approval_status : String

pub record DecisionContext (V : Type 0) : Type 0 where
  pub agent_id : String
  pub task_id : String
  pub task : String
  pub state : Dict (Option V)
  pub previous : Option (ActionResult V)

-- A call of `store_task_journal`, less the details other than the action.
pub record JournalEntry : Type 0 where
  pub task_id : String
  pub event : String
  pub action_id : String

-- `journal` and `audit_store` are `none` where there is none, else the calls made so far.
-- `world_state` is the one of `model`.
pub record Runtime (W V : Type 0) : Type 0 where
  pub manager : Manager
  pub locks : Locks
  pub governor : AutonomyGovernor
  pub mode : AutonomyMode
  pub contracts : Dict (ActionContract V)
  pub resources : Dict (List String)
  pub model : WorldModel V
  pub completed : Dict (ActionResult V)
  pub audit : List (AuditRecord V)
  pub audit_store : Option (List (AuditRecord V))
  pub journal : Option (List JournalEntry)
  pub recovery_events : List (String × RecoveryStrategy)
  pub outside : W

-- What the runtime is given: the handlers of the tools, `handle_within` for a call that is cancelled
-- when so many seconds are over, the controller's `observe`, the clock, the approval handler, the
-- verifier, the decision provider, and the texts of exceptions and values. `redact` is that of
-- safety/redaction.py, and `new_id` is `uuid4`.
pub record Environment (W V : Type 0) : Type 0 where
  pub values : Values V
  pub as_text : V → String
  pub truthy : V → Bool
  pub handle : String → Dict V → W → Result V × W
  pub handle_within : ℕ → String → Dict V → W → Result V × W
  pub observe : W → Result (ComputerState V) × W
  pub clock : W → ℕ
  pub new_id : W → String
  pub approval_handler : Option (ComputerAction V → W → Result Bool × W)
  pub verifier : Dict V → ComputerState V → V → Bool
  pub next_action : DecisionContext V → W → Result (Option (ActionProposal V)) × W
  pub str : Error → String
  pub redact : V → V
  pub redact_text : String → String
  pub is_blank : String → Bool

-- A call that a log gets, where there is one.
abbrev pub appended : {A : Type 0} → A → Option (List A) → Option (List A)
appended entry none = none
appended entry (some entries) = some (entries ++ entry ∷ [])

module _ {W V : Type 0} where
  -- A call that goes outside.
  unfoldable pub outward : {A : Type 0} → (W → Result A × W) → Exec (Runtime W V) A
  outward f r = let (result, outside) = f r.outside in (result, record r { outside = outside })

  unfoldable pub on_manager : {A : Type 0} → Exec Manager A → Exec (Runtime W V) A
  on_manager f r = let (result, manager) = f r.manager in (result, record r { manager = manager })

  unfoldable pub on_governor : {A : Type 0} → Exec AutonomyGovernor A → Exec (Runtime W V) A
  on_governor f r =
      let (result, governor) = f r.governor in (result, record r { governor = governor })

  unfoldable pub on_model : {A : Type 0} → Exec (WorldModel V) A → Exec (Runtime W V) A
  on_model f r = let (result, model) = f r.model in (result, record r { model = model })

  -- `_journal`
  unfoldable pub write_journal : (task_id event action_id : String) → Runtime W V → Runtime W V
  write_journal task_id event action_id r = record r {
    journal =
        appended (record { task_id = task_id; event = event; action_id = action_id }) r.journal;
  }

-- `self.world_state.capture(...)` at the time that the clock shows
unfoldable pub capture_state :
    {W V : Type 0} (env : Environment W V) (source : String) (evidence : Option String)
    (state : ComputerState V)
    → Exec (Runtime W V) (WorldSnapshot V)
unfolding capture
capture_state env source evidence state r =
    let (shot, world) =
      capture env.values (env.clock r.outside) source evidence 1000000 state r.model.state in
    (ok shot, record r { model = record r.model { state = world } })

-- `try`, with the exception as the value.
unfoldable pub attempt : {S A : Type 0} → Exec S A → Exec S (Result A)
attempt f s = let (result, s') = f s in (ok result, s')
