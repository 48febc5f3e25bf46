-- ===== src/Agents/Authority/Frame.antt =====
-- The methods that change no agent's place or permissions keep the hierarchy confined.
use brainless_agent.Common.{
  ℕ, String, Option, ◌≡◌, refl, sym, ◌∙◌, ap, List, arith, if◌then◌else◌, inl, contains, add,
}
use brainless_agent.Common.Dict.{Dict}
use brainless_agent.Common.Keeps.{Keeps}
use brainless_agent.Agents.Frames.{IsOfAgents, same_authority, agents_rules}
use brainless_agent.Agents.Models.{Agent, AgentStatus}
use brainless_agent.Agents.Manager.{
  Manager, Outcome, returned, failed, was_cancelled, change, assign_task, grant_tool,
  set_event_subscriptions, begin_run, end_cancelled, settle, begin_retry, move_status, pause_agent,
  resume_agent, terminate_agent, report_progress,
}
use brainless_agent.Agents.Authority.Confined.{
  Base, IsConfined, change-IsConfined, unchanged-IsConfined,
}

module _ {base : Base} where
  pub confined : IsOfAgents (IsConfined base)
  confined = record { carry = unchanged-IsConfined }

-- An update that leaves the identifier, the parent and the permissions as they are.
abbrev IsHarmless : (Agent → Agent) → Type 0
IsHarmless f =
    (a : Agent)
    → ((f a).agent_id ≡ a.agent_id)
      × ((f a).parent_agent_id ≡ a.parent_agent_id)
      × ((f a).permissions ≡ a.permissions)

module _ {base : Base} where
  pub harmless-IsConfined :
      (i : String) (f : Agent → Agent) → IsHarmless f → Keeps (IsConfined base) (change i f)
  harmless-IsConfined i f h = change-IsConfined i f λ m a.
      let (id, parent, permissions) = h a in
      record {
        same_id = id;
        same_parent = parent;
        no_more = λ p held. inl (sym (ap (contains p) permissions) ∙ held);
        root_keeps = λ _ p held. ap (contains p) permissions ∙ held;
      }

  pub running-IsConfined :
      (i : String) (m : Manager)
      → IsConfined base m
      → IsConfined base (record m { running = add i m.running })
  running-IsConfined i m = unchanged-IsConfined (same_authority refl refl)

  pub cancelled-IsConfined :
      (i : String) (m : Manager)
      → IsConfined base m
      → IsConfined base
          (if contains i m.running then record m { cancelled = add i m.cancelled } else m)
  cancelled-IsConfined i m = unchanged-IsConfined (same_authority (ground arith) (ground arith))

pub ruleset frame_rules =
    (agents_rules, confined, harmless-IsConfined, running-IsConfined, cancelled-IsConfined)

module _ {base : Base} where
  pub assign_task-IsConfined :
      (now : ℕ) (new_task_id parent i task : String) (context : Dict String)
      (task_id : Option String)
      → Keeps (IsConfined base) (assign_task now new_task_id parent i task context task_id)
  unfolding assign_task
  assign_task-IsConfined now new_task_id parent i task context task_id = search frame_rules depth 14

  pub grant_tool-IsConfined :
      (now : ℕ) (parent i tool_id : String)
      → Keeps (IsConfined base) (grant_tool now parent i tool_id)
  unfolding grant_tool
  grant_tool-IsConfined now parent i tool_id = search frame_rules depth 14

  pub set_event_subscriptions-IsConfined :
      (now : ℕ) (parent i : String) (subscriptions : List String)
      → Keeps (IsConfined base) (set_event_subscriptions now parent i subscriptions)
  unfolding set_event_subscriptions
  set_event_subscriptions-IsConfined now parent i subscriptions = search frame_rules depth 14

  pub begin_run-IsConfined :
      (now : ℕ) (parent i : String) → Keeps (IsConfined base) (begin_run now parent i)
  unfolding begin_run
  begin_run-IsConfined now parent i = search frame_rules depth 14

  pub end_cancelled-IsConfined :
      (now : ℕ) (i : String) → Keeps (IsConfined base) (end_cancelled now i)
  unfolding end_cancelled
  end_cancelled-IsConfined now i = search frame_rules depth 14

  pub settle-IsConfined :
      (now : ℕ) (i : String) (o : Outcome) → Keeps (IsConfined base) (settle now i o)
  unfolding settle
  settle-IsConfined now i (returned result) =
      search (frame_rules, end_cancelled-IsConfined) depth 14
  settle-IsConfined now i (failed error) = search frame_rules depth 14
  settle-IsConfined now i was_cancelled = end_cancelled-IsConfined now i

  pub begin_retry-IsConfined : (parent i : String) → Keeps (IsConfined base) (begin_retry parent i)
  unfolding begin_retry
  begin_retry-IsConfined parent i = search frame_rules depth 14

  pub move_status-IsConfined :
      (now : ℕ) (i : String) (from to : AgentStatus) (detail : String) (a : Agent)
      → Keeps (IsConfined base) (move_status now i from to detail a)
  unfolding move_status
  move_status-IsConfined now i from to detail a = search frame_rules depth 14

  pub pause_agent-IsConfined :
      (now : ℕ) (parent i : String) → Keeps (IsConfined base) (pause_agent now parent i)
  unfolding pause_agent
  pause_agent-IsConfined now parent i = search (frame_rules, move_status-IsConfined) depth 14

  pub resume_agent-IsConfined :
      (now : ℕ) (parent i : String) → Keeps (IsConfined base) (resume_agent now parent i)
  unfolding resume_agent
  resume_agent-IsConfined now parent i = search (frame_rules, move_status-IsConfined) depth 14

  pub terminate_agent-IsConfined :
      (now : ℕ) (parent i : String) → Keeps (IsConfined base) (terminate_agent now parent i)
  unfolding terminate_agent
  terminate_agent-IsConfined now parent i = search frame_rules depth 14

  pub report_progress-IsConfined :
      (now : ℕ) (i detail : String) → Keeps (IsConfined base) (report_progress now i detail)
  unfolding report_progress
  report_progress-IsConfined now i detail = search frame_rules depth 14
