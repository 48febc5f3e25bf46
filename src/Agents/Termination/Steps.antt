-- ===== src/Agents/Termination/Steps.antt =====
-- No call but a failing executor takes an agent out of the status terminated.
use brainless_agent.Common.{
  Exec, ℕ, String, refl, List, arith, contains, add, if◌then◌else◌, Error, Result, ok, raise,
  cancelled,
}
use brainless_agent.Common.Keeps.{Keeps}
use brainless_agent.Safety.Leases.{Registry}
use brainless_agent.Agents.Models.{AgentStatus}
use brainless_agent.Agents.Manager.{
  on_leases, Manager, change, set_status, grant_permission, revoke_permission, lease_permission,
  grant_tool, set_event_subscriptions, end_cancelled, begin_retry, terminate_agent, report_progress,
  log_invocation,
}
use brainless_agent.Agents.Frames.{IsOfAgents, agents_rules}
use brainless_agent.Agents.Termination.Status.{
  IsTerminated, change-IsTerminated, harmless-IsTerminated, same_agents-IsTerminated,
}

pub by_agents : (i : String) → IsOfAgents (IsTerminated i)
by_agents i = record { carry = λ e. same_agents-IsTerminated e.agents }

on_leases-IsTerminated :
    {A : Type 0} (i : String) (call : Exec Registry A) → Keeps (IsTerminated i) (on_leases call)
on_leases-IsTerminated i call = record { from = λ m. same_agents-IsTerminated refl }

pub running-IsTerminated :
    (i j : String) (m : Manager)
    → IsTerminated i m
    → IsTerminated i (record m { running = add j m.running })
running-IsTerminated i j m = same_agents-IsTerminated refl

stop-IsTerminated :
    (i j : String) (m : Manager)
    → IsTerminated i m
    → IsTerminated i
        (if contains j m.running then record m { cancelled = add j m.cancelled } else m)
stop-IsTerminated i j m = same_agents-IsTerminated (ground arith)

terminate-IsTerminated :
    (i j : String) → Keeps (IsTerminated i) (change j (set_status AgentStatus.terminated))
terminate-IsTerminated i j = record {
  from = λ m. change-IsTerminated i j (set_status AgentStatus.terminated) m (λ a _ _. refl);
}

ruleset rules = (
  agents_rules, by_agents, harmless-IsTerminated, running-IsTerminated, stop-IsTerminated,
  terminate-IsTerminated, on_leases-IsTerminated,
)

module _ (i : String) where
  pub grant_permission-IsTerminated :
      (now : ℕ) (parent j p : String) → Keeps (IsTerminated i) (grant_permission now parent j p)
  unfolding grant_permission
  grant_permission-IsTerminated now parent j p = search rules depth 14

  pub revoke_permission-IsTerminated :
      (now : ℕ) (parent j p : String) → Keeps (IsTerminated i) (revoke_permission now parent j p)
  unfolding revoke_permission
  revoke_permission-IsTerminated now parent j p = search rules depth 14

  pub lease_permission-IsTerminated :
      (iso : ℕ → String) (now : ℕ) (l parent j p t : String) (seconds : ℕ)
      → Keeps (IsTerminated i) (lease_permission iso now l parent j p t seconds)
  unfolding lease_permission
  lease_permission-IsTerminated iso now l parent j p t seconds = search rules depth 14

  pub grant_tool-IsTerminated :
      (now : ℕ) (parent j t : String) → Keeps (IsTerminated i) (grant_tool now parent j t)
  unfolding grant_tool
  grant_tool-IsTerminated now parent j t = search rules depth 14

  pub set_event_subscriptions-IsTerminated :
      (now : ℕ) (parent j : String) (s : List String)
      → Keeps (IsTerminated i) (set_event_subscriptions now parent j s)
  unfolding set_event_subscriptions
  set_event_subscriptions-IsTerminated now parent j s = search rules depth 14

  pub begin_retry-IsTerminated : (parent j : String) → Keeps (IsTerminated i) (begin_retry parent j)
  unfolding begin_retry
  begin_retry-IsTerminated parent j = search rules depth 14

  pub terminate_agent-IsTerminated :
      (now : ℕ) (parent j : String) → Keeps (IsTerminated i) (terminate_agent now parent j)
  unfolding terminate_agent
  terminate_agent-IsTerminated now parent j = search rules depth 14

  pub report_progress-IsTerminated :
      (now : ℕ) (j detail : String) → Keeps (IsTerminated i) (report_progress now j detail)
  unfolding report_progress
  report_progress-IsTerminated now j detail = search rules depth 14

  pub log_invocation-IsTerminated :
      {V : Type 0} (str : Error → String) (now : ℕ) (j t : String) (r : Result V)
      → Keeps (IsTerminated i) (log_invocation str now j t r)
  unfolding log_invocation
  log_invocation-IsTerminated str now j t (ok v) = search rules depth 14
  log_invocation-IsTerminated str now j t (raise cancelled) = search rules
  log_invocation-IsTerminated str now j t (raise e) = search rules depth 14

  pub end_cancelled-IsTerminated :
      (now : ℕ) (j : String) → Keeps (IsTerminated i) (end_cancelled now j)
  unfolding end_cancelled
  end_cancelled-IsTerminated now j = search rules depth 14
