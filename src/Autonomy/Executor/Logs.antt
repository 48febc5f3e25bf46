-- ===== src/Autonomy/Executor/Logs.antt =====
-- What `perform` does before it ends an action leaves the results and the audit as they are.
use brainless_agent.Common.{
  ℕ, String, Bool, true, false, Option, none, some, ◌≡◌, List, contains, approval_needed,
  permission_denied, value_error, proposal_rejected, Result, ok, raise, Error, Exec, pure,
  modify_state,
}
use brainless_agent.Common.Dict.{Dict, get}
use brainless_agent.Common.Keeps.{
  Keeps, keeps_rules, Keeps-bind, Keeps-throw, Keeps-pure, Keeps-reads, Keeps-if,
}
use brainless_agent.Autonomy.Actions.{ComputerAction, ActionResult}
use brainless_agent.Autonomy.Gates.{ActionContract, ModeDecision, decision}
use brainless_agent.Agents.Tools.{ToolSpec}
use brainless_agent.Autonomy.Governor.{GovernorDecision}
use brainless_agent.Autonomy.World.{ComputerState}
use brainless_agent.Autonomy.World.Model.{WorldModel}
use brainless_agent.Autonomy.Executor.{
  AuditRecord, Runtime, Environment, outward, on_model, attempt, write_journal, capture_state,
  gates, gate_tool, after_governor, gate_mode, after_mode, gate_contract, with_contract,
  after_contract, try_contract, gate_policy, after_policy, approve_policy, ask, ask_handler,
  breaks_contract, run_action, run_locked, inside, use_tool, make_prediction,
}

-- The results and the audit of a runtime.
pub record Logs {W V : Type 0} (completed : Dict (ActionResult V)) (audit : List (AuditRecord V))
    (r : Runtime W V) : Type 0 where
  pub results : r.completed ≡ completed
  pub records : r.audit ≡ audit

module _ {W V : Type 0} {c : Dict (ActionResult V)} {a : List (AuditRecord V)} where
  outward-Keeps : {A : Type 0} (f : W → Result A × W) → Keeps (Logs c a) (outward {V = V} f)
  unfolding outward
  outward-Keeps f = record { from = λ r h. record { results = h.results; records = h.records } }

  on_model-Keeps : {A : Type 0} (f : Exec (WorldModel V) A) → Keeps (Logs c a) (on_model {W = W} f)
  unfolding on_model
  on_model-Keeps f = record { from = λ r h. record { results = h.results; records = h.records } }

  pub attempt-Keeps :
      {A : Type 0} (m : Exec (Runtime W V) A) → Keeps (Logs c a) m → Keeps (Logs c a) (attempt m)
  unfolding attempt
  attempt-Keeps m k = record { from = k.from }

  journal-Keeps :
      (task_id event action_id : String)
      → Keeps (Logs c a) (modify_state {S = Runtime W V} (write_journal task_id event action_id))
  unfolding write_journal modify_state
  journal-Keeps task_id event action_id = record {
    from = λ r h. record { results = h.results; records = h.records };
  }

  module _ (env : Environment W V) where
    capture_state-Keeps :
        (source : String) (evidence : Option String) (state : ComputerState V)
        → Keeps (Logs c a) (capture_state env source evidence state)
    unfolding capture_state
    capture_state-Keeps source evidence state = record {
      from = λ r h. record { results = h.results; records = h.records };
    }

    make_prediction-Keeps :
        (action : ComputerAction V) → Keeps (Logs c a) (make_prediction env action)
    unfolding make_prediction
    make_prediction-Keeps action = record {
      from = λ r h. record { results = h.results; records = h.records };
    }

    use_tool-Keeps :
        (limit : Option ℕ) (action : ComputerAction V)
        → Keeps (Logs c a) (use_tool env limit action)
    unfolding use_tool
    use_tool-Keeps none action = record {
      from = λ r h. record { results = h.results; records = h.records };
    }
    use_tool-Keeps (some seconds) action = record {
      from = λ r h. record { results = h.results; records = h.records };
    }

    run_action-Keeps :
        (contract : Option (ActionContract V)) (action : ComputerAction V)
        → Keeps (Logs c a) (run_action env contract action)
    unfolding run_action
    run_action-Keeps contract action =
        search
          (
            keeps_rules, outward-Keeps, on_model-Keeps, journal-Keeps, capture_state-Keeps,
            make_prediction-Keeps, use_tool-Keeps,
          )
          depth 40

    inside-Keeps :
        (contract : Option (ActionContract V)) (action : ComputerAction V)
        (taken : Result (List String))
        → Keeps (Logs c a) (inside env contract action taken)
    inside-Keeps contract action (raise e) = Keeps-throw e
    inside-Keeps contract action (ok taken) = record {
      from = λ r h.
          let k = (run_action-Keeps contract action).from r h in
          record { results = k.results; records = k.records };
    }

    pub run_locked-Keeps :
        (stem : String → String) (contract : Option (ActionContract V)) (action : ComputerAction V)
        → Keeps (Logs c a) (run_locked env stem contract action)
    unfolding run_locked
    run_locked-Keeps stem contract action = record {
      from = λ r h.
          (inside-Keeps contract action _).from _
            (record { results = h.results; records = h.records });
    }

    module _ (action : ComputerAction V) where
      ask_handler-Keeps :
          (o : Option (ComputerAction V → W → Result Bool × W))
          → Keeps (Logs c a) (ask_handler env action o)
      unfolding ask_handler
      ask_handler-Keeps none = Keeps-pure none
      ask_handler-Keeps (some handler) = search (keeps_rules, outward-Keeps) depth 9

      ask-Keeps : Keeps (Logs c a) (ask env action)
      unfolding ask
      ask-Keeps = ask_handler-Keeps env.approval_handler

      approve_policy-Keeps :
          (e : Error) (o : Option Bool) → Keeps (Logs c a) (approve_policy env action e o)
      unfolding approve_policy pure
      approve_policy-Keeps e none = Keeps-pure _
      approve_policy-Keeps e (some false) = Keeps-pure _
      approve_policy-Keeps e (some true) = record {
        from = λ r h. record { results = h.results; records = h.records };
      }

      after_policy-Keeps :
          (policy approval : String) (o : Result (Unit {0}))
          → Keeps (Logs c a) (after_policy env action policy approval o)
      unfolding after_policy
      after_policy-Keeps policy approval (ok u) = Keeps-pure _
      after_policy-Keeps policy approval (raise (approval_needed b p reason)) =
          Keeps-bind _ _ ask-Keeps (approve_policy-Keeps (approval_needed b p reason))
      after_policy-Keeps policy approval (raise (permission_denied b p reason)) = Keeps-pure _
      after_policy-Keeps policy approval (raise e) = Keeps-throw e

      gate_policy-Keeps :
          (policy approval : String) → Keeps (Logs c a) (gate_policy env action policy approval)
      unfolding gate_policy
      gate_policy-Keeps policy approval = record {
        from = λ r h.
            (after_policy-Keeps policy approval _).from _
              (record { results = h.results; records = h.records });
      }

      try_contract-Keeps :
          (contract : ActionContract V) → Keeps (Logs c a) (try_contract env action contract)
      unfolding try_contract
      try_contract-Keeps contract =
          search (keeps_rules, outward-Keeps, capture_state-Keeps) depth 15

      after_contract-Keeps :
          (policy approval : String) (o : Result (Unit {0}))
          → Keeps (Logs c a) (after_contract env action policy approval o)
      unfolding after_contract
      after_contract-Keeps policy approval (ok u) = gate_policy-Keeps policy approval
      after_contract-Keeps policy approval (raise (value_error t)) = Keeps-pure _
      after_contract-Keeps policy approval (raise (proposal_rejected t)) = Keeps-pure _
      after_contract-Keeps policy approval (raise e) = Keeps-throw e

      with_contract-Keeps :
          (policy approval : String) (o : Option (ActionContract V))
          → Keeps (Logs c a) (with_contract env action policy approval o)
      unfolding with_contract
      with_contract-Keeps policy approval none = gate_policy-Keeps policy approval
      with_contract-Keeps policy approval (some contract) =
          Keeps-if (breaks_contract env action contract) _ _ (Keeps-pure _) (
            Keeps-bind _ _ (attempt-Keeps _ (try_contract-Keeps contract))
              (after_contract-Keeps policy approval))

      gate_contract-Keeps :
          (policy approval : String) → Keeps (Logs c a) (gate_contract env action policy approval)
      unfolding gate_contract
      gate_contract-Keeps policy approval = record {
        from =
            λ r. (with_contract-Keeps policy approval (get action.action_type r.contracts)).from r;
      }

      after_mode-Keeps : (o : Option Bool) → Keeps (Logs c a) (after_mode env action o)
      unfolding after_mode
      after_mode-Keeps none = Keeps-pure _
      after_mode-Keeps (some false) = Keeps-pure _
      after_mode-Keeps (some true) = gate_contract-Keeps _ _

      gate_mode-Keeps : (d : ModeDecision) → Keeps (Logs c a) (gate_mode env action d)
      unfolding gate_mode
      gate_mode-Keeps ModeDecision.deny = Keeps-pure _
      gate_mode-Keeps ModeDecision.approval = Keeps-bind _ _ ask-Keeps after_mode-Keeps
      gate_mode-Keeps ModeDecision.allow = gate_contract-Keeps _ _

      after_governor-Keeps :
          (tool : ToolSpec) (reason : String) (d : GovernorDecision)
          → Keeps (Logs c a) (after_governor env action tool reason d)
      unfolding after_governor
      after_governor-Keeps tool reason GovernorDecision.deny = Keeps-pure _
      after_governor-Keeps tool reason GovernorDecision.approval =
          gate_mode-Keeps ModeDecision.approval
      after_governor-Keeps tool reason GovernorDecision.allow = record {
        from = λ r. (gate_mode-Keeps (decision r.mode tool)).from r;
      }

      gate_tool-Keeps : (o : Option ToolSpec) → Keeps (Logs c a) (gate_tool env action o)
      unfolding gate_tool
      gate_tool-Keeps none = Keeps-pure _
      gate_tool-Keeps (some tool) =
          Keeps-if (contains action.permission tool.required_permissions) _ _
            (Keeps-bind _ _ (Keeps-reads _) (λ g. after_governor-Keeps tool g.reason g.decision))
            (Keeps-pure _)

      pub gates-Keeps : Keeps (Logs c a) (gates env action)
      unfolding gates
      gates-Keeps = record {
        from = λ r. (gate_tool-Keeps (get action.action_type r.manager.tools)).from r;
      }
