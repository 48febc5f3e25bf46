-- ===== src/Agents/Termination/Guarded.antt =====
-- The calls that set a status look at the old one first, and leave a terminated agent alone.
use brainless_agent.Common.{
  ℕ, String, true, not, Option, some, ◌≡◌, ◌≢◌, sym, ◌∙◌, ap, arith, Bool-cases, inl, inr, Exec,
  throw, ◌>>◌, [], pure,
}
use brainless_agent.Common.Keeps.{Keeps, Keeps-bind, Keeps-modify}
use brainless_agent.Common.Cases.{read_cases, guard_cases, bind_cases, throw-Raises}
use brainless_agent.Common.Dict.{Dict, get}
use brainless_agent.Agents.Models.{Agent, AgentStatus, EventType}
use brainless_agent.Agents.Manager.{
  Manager, returned, change, note, has_status, get_agent, owned_child, set_status, assigned,
  text_or, assign_task, begin_run, settle, move_status, pause_agent, resume_agent,
}
use brainless_agent.Agents.Frames.{agents_rules, note-Keeps}
use brainless_agent.Agents.Reads.{state-owned_child, owned_child-ok, state-get_agent, get_agent-ok}
use brainless_agent.Agents.Termination.Status.{
  IsTerminated, has_status-true, has_status_self, change-IsTerminated,
}
use brainless_agent.Agents.Termination.Steps.{
  by_agents, running-IsTerminated, end_cancelled-IsTerminated,
}

-- A status that the code has just read decides for the agent in the table.
clash :
    (s : AgentStatus) (j : String) (m : Manager) (c a : Agent)
    → s ≢ AgentStatus.terminated
    → has_status s c ≡ true
    → get j m.agents ≡ some c
    → get j m.agents ≡ some a
    → a.status ≢ AgentStatus.terminated
clash s j m c a other is at found stopped = other (sym (has_status-true s c is) ∙ cc)

alive :
    (j : String) (m : Manager) (c a : Agent)
    → not (has_status AgentStatus.terminated c) ≡ true
    → get j m.agents ≡ some c
    → get j m.agents ≡ some a
    → a.status ≢ AgentStatus.terminated
alive j m c a open_ at found stopped =
    let yes_it_is =
      has_status_self AgentStatus.terminated c (ap (λ (x : Agent). x.status) same ∙ stopped) in
    ground (arith, yes_it_is)
  where
    same : c ≡ a
    same = ground (arith, at, found)

-- A change of the agent that was read, and what follows it.
module _ {B : Type 0} (i j : String) (f : Agent → Agent) (m : Manager) where
  changed :
      (rest : Exec Manager B)
      → ((a : Agent) → get j m.agents ≡ some a → a.status ≢ AgentStatus.terminated)
      → Keeps (IsTerminated i) rest
      → IsTerminated i m
      → IsTerminated i ((change j f >> rest) m).1
  changed rest not_stopped keeps h =
      bind_cases (λ r. IsTerminated i r.1) (change j f) (λ _. rest) m (λ _ _. keeps.from _ after)
        (λ _ _. after)
    where
      after : IsTerminated i (change j f m).1
      after = change-IsTerminated i j f m (λ a at stopped. absurd (not_stopped a at stopped)) h

module _ (i : String) where
  pub assign_task-IsTerminated :
      (now : ℕ) (t parent j task : String) (context : Dict String) (given : Option String)
      → Keeps (IsTerminated i) (assign_task now t parent j task context given)
  unfolding assign_task throw
  assign_task-IsTerminated now t parent j task context given = record {
    from = λ m h.
        read_cases (λ r. IsTerminated i r.1) (owned_child parent j) _ m
          (state-owned_child parent j m)
          (λ c e.
            guard_cases (λ r. IsTerminated i r.1) (not (has_status AgentStatus.terminated c)) _ _ m
              (throw-Raises _)
              (λ open_.
                changed i j (assigned task (text_or given t) context) m _
                  (λ a. alive j m c a open_ (owned_child-ok parent j m c e).0)
                  (note-Keeps (by_agents i) now j EventType.task task []) h)
              (λ _. h))
          (λ _ _. h);
  }

  pub begin_run-IsTerminated :
      (now : ℕ) (parent j : String) → Keeps (IsTerminated i) (begin_run now parent j)
  unfolding begin_run throw
  begin_run-IsTerminated now parent j = record {
    from = λ m h.
        read_cases (λ r. IsTerminated i r.1) (owned_child parent j) _ m
          (state-owned_child parent j m)
          (λ c e.
            guard_cases (λ r. IsTerminated i r.1) (not (has_status AgentStatus.terminated c)) _ _ m
              (throw-Raises _)
              (λ open_.
                guard_cases (λ r. IsTerminated i r.1) (not (has_status AgentStatus.paused c)) _ _ m
                  (throw-Raises _)
                  (λ _.
                    changed i j (set_status AgentStatus.running) m _
                      (λ a. alive j m c a open_ (owned_child-ok parent j m c e).0)
                      (Keeps-bind _ _
                        (note-Keeps (by_agents i) now j EventType.status "Agent started" [])
                        (λ _. Keeps-modify _ (running-IsTerminated i j)))
                      h)
                  (λ _. h))
              (λ _. h))
          (λ _ _. h);
  }

  move_status-IsTerminated :
      (now : ℕ) (j : String) (from to : AgentStatus) (detail : String) (c : Agent) (m : Manager)
      → from ≢ AgentStatus.terminated
      → get j m.agents ≡ some c
      → IsTerminated i m
      → IsTerminated i (move_status now j from to detail c m).1
  unfolding move_status
  move_status-IsTerminated now j from to detail c m other at h =
      elim (Bool-cases (has_status from c)) [
        | inl is ↦ rw is (
            changed i j (set_status to) m (note now j EventType.status detail [])
              (λ a. clash from j m c a other is at)
              (note-Keeps (by_agents i) now j EventType.status detail []) h)
        | inr is_not ↦ rw is_not (unfold pure in h)
      ]

  pub pause_agent-IsTerminated :
      (now : ℕ) (parent j : String) → Keeps (IsTerminated i) (pause_agent now parent j)
  unfolding pause_agent
  pause_agent-IsTerminated now parent j = record {
    from = λ m h.
        read_cases (λ r. IsTerminated i r.1) (owned_child parent j) _ m
          (state-owned_child parent j m)
          (λ c e.
            move_status-IsTerminated now j AgentStatus.running AgentStatus.paused _ c m (λ p. cc)
              (owned_child-ok parent j m c e).0 h)
          (λ _ _. h);
  }

  pub resume_agent-IsTerminated :
      (now : ℕ) (parent j : String) → Keeps (IsTerminated i) (resume_agent now parent j)
  unfolding resume_agent
  resume_agent-IsTerminated now parent j = record {
    from = λ m h.
        read_cases (λ r. IsTerminated i r.1) (owned_child parent j) _ m
          (state-owned_child parent j m)
          (λ c e.
            move_status-IsTerminated now j AgentStatus.paused AgentStatus.ready _ c m (λ p. cc)
              (owned_child-ok parent j m c e).0 h)
          (λ _ _. h);
  }

  -- A result that arrives after the termination is dropped.
  pub settle_returned-IsTerminated :
      (now : ℕ) (j result : String) → Keeps (IsTerminated i) (settle now j (returned result))
  unfolding settle
  settle_returned-IsTerminated now j result = record {
    from = λ m h.
        read_cases (λ r. IsTerminated i r.1) (get_agent j) _ m (state-get_agent j m)
          (λ c e. elim (Bool-cases (has_status AgentStatus.terminated c)) [
            | inl stopped ↦ rw stopped ((end_cancelled-IsTerminated i now j).from m h)
            | inr goes_on ↦ rw goes_on (
                changed i j (λ a. record a { result = some result; status = AgentStatus.completed })
                  m _ (λ a. alive j m c a (ap not goes_on) (get_agent-ok j m c e))
                  (search (agents_rules, by_agents) depth 9) h)
          ])
          (λ _ _. h);
  }
