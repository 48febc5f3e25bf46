-- ===== src/Agents/Termination/Final.antt =====
-- Termination is final for every call but one: an executor that fails after the termination.
use brainless_agent.Common.{
  ℕ, String, Option, none, some, ◌≡◌, ◌≢◌, refl, ◌∙◌, ap, inl, inr, ◌⊎◌, any, is_none, Bool-cases,
  List, [], ◌∷◌, ◌++◌, pure, throw, ◌>>◌, difference, is_empty, external, eq_iff, ◌==◌,
}
use brainless_agent.Common.Keeps.{Keeps}
use brainless_agent.Common.Cases.{read_cases, guard_cases, bind_cases}
use brainless_agent.Common.Dict.{Dict, get, put, values, get-modify_forth}
use brainless_agent.Agents.Models.{Agent, AgentStatus, EventType}
use brainless_agent.Agents.Manager.{
  Manager, returned, failed, was_cancelled, change, note, log_event, get_agent, settle, create_root,
  create_agent, check_tools, new_child, add_child, new_agent,
}
use brainless_agent.Agents.History.{Step}
use brainless_agent.Agents.Frames.{
  IsOfAgents, agents_rules, authorize-Keeps, forget_run-Keeps, refuse-Keeps, check_tools-Keeps,
}
use brainless_agent.Agents.Reads.{state-get_agent, refuse-Raises}
use brainless_agent.Agents.Termination.Status.{
  IsTerminated, put-IsTerminated, harmless-IsTerminated, same_agents-IsTerminated,
}
use brainless_agent.Agents.Termination.Steps.{
  by_agents, grant_permission-IsTerminated, revoke_permission-IsTerminated,
  lease_permission-IsTerminated, grant_tool-IsTerminated, set_event_subscriptions-IsTerminated,
  begin_retry-IsTerminated, terminate_agent-IsTerminated, report_progress-IsTerminated,
  log_invocation-IsTerminated, end_cancelled-IsTerminated,
}
use brainless_agent.Agents.Termination.Guarded.{
  assign_task-IsTerminated, begin_run-IsTerminated, pause_agent-IsTerminated,
  resume_agent-IsTerminated, settle_returned-IsTerminated,
}

create_root-IsTerminated :
    (i : String) (now : ℕ) (j name role objective : String) (permissions : List String)
    (m : Manager)
    → get j m.agents ≡ none
    → IsTerminated i m
    → IsTerminated i (create_root now j name role objective permissions m).1
unfolding create_root log_event pure throw
create_root-IsTerminated i now j name role objective permissions m fresh h =
    elim (Bool-cases (any (values m.agents) (λ a. is_none a.parent_agent_id))) [
      | inl some_top ↦ rw some_top h
      | inr none_top ↦
          rw none_top
            (put-IsTerminated j (new_agent now j name role objective permissions) fresh refl h)
    ]

-- What stays the same until the child is put into the table.
record Waiting (i j : String) (m : Manager) : Type 0 where
  free : get j m.agents ≡ none
  stopped : IsTerminated i m

waiting : (i j : String) → IsOfAgents (Waiting i j)
waiting i j = record {
  carry = λ e h. record {
    free = ap (get j) e.agents ∙ h.free;
    stopped = same_agents-IsTerminated e.agents h.stopped;
  };
}

add_child-IsTerminated :
    (i : String) (now : ℕ) (c : Agent) (parent : String) (m : Manager)
    → get c.agent_id m.agents ≡ none
    → IsTerminated i m
    → IsTerminated i (add_child now c parent m).1
unfolding add_child log_event pure change
add_child-IsTerminated i now c parent m fresh h = same_agents-IsTerminated refl (
    (harmless-IsTerminated i parent
        (λ p. record p { child_agents = p.child_agents ++ c.agent_id ∷ [] }) (λ a. refl)).from
      (record m { agents = put c.agent_id c m.agents })
      (put-IsTerminated c.agent_id c fresh refl h))

create_agent-IsTerminated :
    (i : String) (now : ℕ) (j task_id parent name role objective : String) (task : Option String)
    (permissions tools : List String) (context : Dict String) (given : Option String) (m : Manager)
    → get j m.agents ≡ none
    → IsTerminated i m
    → IsTerminated i
        (create_agent now j task_id parent name role objective task permissions tools context given
          m).1
unfolding create_agent
create_agent-IsTerminated i now j task_id parent name role objective task permissions tools context
      given m fresh h =
    read_cases (λ r. IsTerminated i r.1) (get_agent parent) _ m (state-get_agent parent m)
      (λ p found.
        guard_cases (λ r. IsTerminated i r.1) (is_empty (difference permissions p.permissions)) _ _
          m (refuse-Raises now parent p.parent_agent_id _ _)
          (λ _.
            let checked : Waiting i j (check_tools now p permissions tools m).1 =
              (check_tools-Keeps (waiting i j) now p permissions tools).from m start in
            bind_cases (λ r. IsTerminated i r.1) (check_tools now p permissions tools)
              (λ _. add_child now child parent) m
              (λ _ _.
                add_child-IsTerminated i now child parent _ (unfold new_child in checked.free)
                  checked.stopped)
              (λ _ _. checked.stopped))
          (λ _. (refuse-Keeps (by_agents i) now parent p.parent_agent_id _ _).from m h))
      (λ _ _. h)
  where
    child : Agent
    child = new_child now j task_id parent name role objective task permissions tools context given

    start : Waiting i j m
    start = record { free = fresh; stopped = h }

-- A change of another agent.
other-IsTerminated :
    (i j : String) (f : Agent → Agent) (m : Manager)
    → j ≢ i
    → IsTerminated i m
    → IsTerminated i (change j f m).1
unfolding change pure
other-IsTerminated i j f m different h =
    let (b, at, how) = get-modify_forth j f m.agents i h.found in
    record {
      agent = b;
      found = at;
      is = elim how [
        | inl (here, _) ↦ absurd (different here)
        | inr same ↦ ap (λ (x : Agent). x.status) same ∙ h.is
      ];
    }

failed-IsTerminated :
    (i : String) (now : ℕ) (j error : String) (m : Manager)
    → j ≢ i
    → IsTerminated i m
    → IsTerminated i (settle now j (failed error) m).1
unfolding settle
failed-IsTerminated i now j error m different h =
    bind_cases (λ r. IsTerminated i r.1)
      (change j (λ a. record a { error = some error; status = AgentStatus.failed }))
      (λ _. note now j EventType.error error [] >> throw (external error)) m
      (λ _ _. (keep_rest now j error).from _ (other-IsTerminated i j _ m different h))
      (λ _ _. other-IsTerminated i j _ m different h)
  where
    keep_rest :
        (now : ℕ) (j error : String)
        → Keeps
            (IsTerminated i)
            (note now j EventType.error error [] >> throw {A = String} (external error))
    keep_rest now j error = search (agents_rules, by_agents) depth 9

-- Once an agent is terminated it stays so under every call of the manager, whatever the order,
-- except that its own executor fails later: then `settle` overwrites the status.
pub Step-IsTerminated :
    {V : Type 0} {m n : Manager} (i : String)
    → Step V m n
    → IsTerminated i m
    → IsTerminated i n ⊎ ((now : ℕ) × (error : String) × (n ≡ (settle now i (failed error) m).1))
Step-IsTerminated i (Step.root now j name role objective ps fresh) h =
    inl (create_root-IsTerminated i now j name role objective ps _ fresh h)
Step-IsTerminated i (Step.child now j t parent name role o task ps ts context given fresh) h =
    inl (create_agent-IsTerminated i now j t parent name role o task ps ts context given _ fresh h)
Step-IsTerminated i (Step.subscribe now parent j s) h =
    inl ((set_event_subscriptions-IsTerminated i now parent j s).from _ h)
Step-IsTerminated i (Step.assign now t parent j task context given) h =
    inl ((assign_task-IsTerminated i now t parent j task context given).from _ h)
Step-IsTerminated i (Step.grant now parent j p) h =
    inl ((grant_permission-IsTerminated i now parent j p).from _ h)
Step-IsTerminated i (Step.revoke now parent j p) h =
    inl ((revoke_permission-IsTerminated i now parent j p).from _ h)
Step-IsTerminated i (Step.lease iso now l parent j p t seconds) h =
    inl ((lease_permission-IsTerminated i iso now l parent j p t seconds).from _ h)
Step-IsTerminated i (Step.tool now parent j t) h =
    inl ((grant_tool-IsTerminated i now parent j t).from _ h)
Step-IsTerminated i (Step.progress now j detail) h =
    inl ((report_progress-IsTerminated i now j detail).from _ h)
Step-IsTerminated i (Step.begin now parent j) h =
    inl ((begin_run-IsTerminated i now parent j).from _ h)
Step-IsTerminated i (Step.settled now j (returned result)) h =
    inl ((settle_returned-IsTerminated i now j result).from _ h)
Step-IsTerminated {m = m} i (Step.settled now j (failed error)) h = elim (Bool-cases (j == i)) [
  | inl same ↦ inr (now, error, ap (λ k. (settle now k (failed error) m).1) ((eq_iff j i).0 same))
  | inr different ↦ inl (failed-IsTerminated i now j error _ (λ e. cc ((eq_iff j i).1 e)) h)
]
Step-IsTerminated i (Step.settled now j was_cancelled) h =
    inl (unfold settle in (end_cancelled-IsTerminated i now j).from _ h)
Step-IsTerminated i (Step.forgotten j) h = inl (forget_run-Keeps (by_agents i) j _ h)
Step-IsTerminated i (Step.retry parent j) h = inl ((begin_retry-IsTerminated i parent j).from _ h)
Step-IsTerminated i (Step.pause now parent j) h =
    inl ((pause_agent-IsTerminated i now parent j).from _ h)
Step-IsTerminated i (Step.resume now parent j) h =
    inl ((resume_agent-IsTerminated i now parent j).from _ h)
Step-IsTerminated i (Step.terminate now parent j) h =
    inl ((terminate_agent-IsTerminated i now parent j).from _ h)
Step-IsTerminated i (Step.authorized now j t) h =
    inl ((authorize-Keeps (by_agents i) now j t).from _ h)
Step-IsTerminated i (Step.invoked str now j t r) h =
    inl ((log_invocation-IsTerminated i str now j t r).from _ h)
