-- ===== src/Agents/History.antt =====
-- Every history of the manager: the calls that agents, tasks and the dashboard make, in any order.
-- A run of an agent is the three steps `begin_run`, `settle` and `forget_run`, so that the calls of
-- other tasks come between them as they please.
use brainless_agent.Common.{ℕ, String, Option, none, List, ◌≡◌, Error, Result}
use brainless_agent.Common.Dict.{Dict, get}
use brainless_agent.Agents.Manager.{
  Manager, Outcome, create_root, create_agent, set_event_subscriptions, assign_task,
  grant_permission, revoke_permission, lease_permission, grant_tool, report_progress, begin_run,
  settle, forget_run, begin_retry, pause_agent, resume_agent, terminate_agent, authorize,
  log_invocation,
}

-- One call; `V` is the type of what tools return. The identifier of a new agent is not in use, as
-- `uuid4` promises.
pub data Step (V : Type 0) (m : Manager) : Manager → Type 0 where
  root :
      (now : ℕ) (i name role objective : String) (permissions : List String)
      → get i m.agents ≡ none
      → Step V m (create_root now i name role objective permissions m).1
  child :
      (now : ℕ) (i task_id parent name role objective : String) (task : Option String)
      (permissions tools : List String) (context : Dict String) (given : Option String)
      → get i m.agents ≡ none
      → Step V m
          (create_agent now i task_id parent name role objective task permissions tools context
            given m).1
  subscribe :
      (now : ℕ) (parent i : String) (subscriptions : List String)
      → Step V m (set_event_subscriptions now parent i subscriptions m).1
  assign :
      (now : ℕ) (task_id parent i task : String) (context : Dict String) (given : Option String)
      → Step V m (assign_task now task_id parent i task context given m).1
  grant : (now : ℕ) (parent i p : String) → Step V m (grant_permission now parent i p m).1
  revoke : (now : ℕ) (parent i p : String) → Step V m (revoke_permission now parent i p m).1
  lease :
      (iso : ℕ → String) (now : ℕ) (lease_id parent i p task_id : String) (seconds : ℕ)
      → Step V m (lease_permission iso now lease_id parent i p task_id seconds m).1
  tool : (now : ℕ) (parent i tool_id : String) → Step V m (grant_tool now parent i tool_id m).1
  progress : (now : ℕ) (i detail : String) → Step V m (report_progress now i detail m).1
  begin : (now : ℕ) (parent i : String) → Step V m (begin_run now parent i m).1
  settled : (now : ℕ) (i : String) (outcome : Outcome) → Step V m (settle now i outcome m).1
  forgotten : (i : String) → Step V m (forget_run i m)
  retry : (parent i : String) → Step V m (begin_retry parent i m).1
  pause : (now : ℕ) (parent i : String) → Step V m (pause_agent now parent i m).1
  resume : (now : ℕ) (parent i : String) → Step V m (resume_agent now parent i m).1
  terminate : (now : ℕ) (parent i : String) → Step V m (terminate_agent now parent i m).1
  authorized : (now : ℕ) (i tool_id : String) → Step V m (authorize now i tool_id m).1
  invoked :
      (str : Error → String) (now : ℕ) (i tool_id : String) (result : Result V)
      → Step V m (log_invocation str now i tool_id result m).1

pub data Reach (V : Type 0) (m : Manager) : Manager → Type 0 where
  here : Reach V m m
  next : {n o : Manager} → Reach V m n → Step V n o → Reach V m o
