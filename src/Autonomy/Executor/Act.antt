-- ===== src/Autonomy/Executor/Act.antt =====
-- The action of `ActionRuntime.perform` itself: under its locks, with a prediction and observations.
use brainless_agent.Common.{
  ℕ, String, Option, none, some, List, [], ◌∷◌, Result, ok, raise, Exec, pure, throw, modify_state,
  ◌>>=◌, ◌>>◌, timeout_error, cancelled,
}
use brainless_agent.Common.Dict.{get}
use brainless_agent.Agents.Manager.{execute_tool}
use brainless_agent.Autonomy.Actions.{ComputerAction}
use brainless_agent.Autonomy.Gates.{ActionContract}
use brainless_agent.Autonomy.World.{ComputerState, WorldSnapshot}
use brainless_agent.Autonomy.World.Model.{TransitionComparison, Prediction, predict, compare}
use brainless_agent.Autonomy.Locks.{acquire, release_all}
use brainless_agent.Autonomy.Executor.State.{
  Runtime, Environment, outward, on_model, write_journal, capture_state,
}

-- `self._resources.get(action.action_type, {...})`; `stem` is the text before the first dot.
abbrev pub resources_or : Option (List String) → String → List String
resources_or none stem = stem ∷ []
resources_or (some resources) stem = resources

-- What an action that ran leaves for its verification.
pub record Ran (V : Type 0) : Type 0 where
  pub output : V
  pub observed : ComputerState V
  pub before : WorldSnapshot V
  pub after : WorldSnapshot V
  pub comparison : TransitionComparison V

-- `asyncio.timeout` turns the cancellation that it made into `TimeoutError`.
abbrev pub timed : {A : Type 0} → Result A → Result A
timed (ok a) = ok a
timed (raise cancelled) = raise (timeout_error "")
timed (raise e) = raise e

module _ {W V : Type 0} (env : Environment W V) where
  -- `self.manager.execute_tool(...)`, under the time limit of the contract if it has one
  abbrev pub limit_of : Option (ActionContract V) → Option ℕ
  limit_of none = none
  limit_of (some contract) = contract.timeout_seconds

  unfoldable pub use_tool : Option ℕ → ComputerAction V → Exec (Runtime W V) V
  use_tool none action r =
      let (result, (m, w)) =
        execute_tool env.handle env.str (env.clock r.outside) action.agent_id action.action_type
          action.arguments (r.manager, r.outside) in
      (result, record r { manager = m; outside = w })
  use_tool (some seconds) action r =
      let (result, (m, w)) =
        execute_tool (env.handle_within seconds) env.str (env.clock r.outside) action.agent_id
          action.action_type action.arguments (r.manager, r.outside) in
      (timed result, record r { manager = m; outside = w })

  unfoldable pub make_prediction : ComputerAction V → Exec (Runtime W V) (Prediction V)
  unfolding predict
  make_prediction action r =
      let (prediction, model) =
        predict (env.clock r.outside) action.action_id action.expected_state 500000 r.model in
      (ok prediction, record r { model = model })

  -- The body of `async with self.locks.acquire(...)`
  unfoldable pub run_action :
      Option (ActionContract V) → ComputerAction V → Exec (Runtime W V) (Ran V)
  unfolding outward on_model capture_state make_prediction use_tool write_journal
  run_action contract action = do
    state ← outward env.observe
    before ← capture_state env "before_action" (some action.action_id) state
    prediction ← make_prediction action
    modify_state (write_journal action.task_id "PREDICTION_RECORDED" prediction.action_id)
    modify_state (write_journal action.task_id "OBSERVATION_CAPTURED" action.action_id)
    output ← use_tool (limit_of contract) action
    observed ← outward env.observe
    after ← capture_state env "after_action" (some action.action_id) observed
    comparison ← on_model (compare env.values env.as_text action.action_id after)
    modify_state (write_journal action.task_id "PREDICTION_COMPARED" action.action_id)
    modify_state (write_journal action.task_id "OBSERVATION_CAPTURED" action.action_id)
    pure (record {
      output = output;
      observed = observed;
      before = before;
      after = after;
      comparison = comparison;
    })

  abbrev pub release : ComputerAction V → List String → Runtime W V → Runtime W V
  release action taken r = record r { locks = release_all action.agent_id taken r.locks }

  abbrev pub inside :
      Option (ActionContract V)
      → ComputerAction V
      → Result (List String)
      → Exec (Runtime W V) (Ran V)
  inside contract action (raise e) = throw e
  inside contract action (ok taken) =
      λ r. let (result, r') = run_action contract action r in (result, release action taken r')

  -- The `async with` as a whole; `stem` is the text of a tool before its first dot.
  unfoldable pub run_locked :
      (stem : String → String)
      → Option (ActionContract V)
      → ComputerAction V
      → Exec (Runtime W V) (Ran V)
  unfolding run_action
  run_locked stem contract action r =
      let (taken, locks) =
        acquire action.agent_id
          (resources_or (get action.action_type r.resources) (stem action.action_type)) r.locks in
      inside contract action taken (record r { locks = locks })
