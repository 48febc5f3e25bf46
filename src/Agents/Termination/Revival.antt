-- ===== src/Agents/Termination/Revival.antt =====
-- A failing executor undoes the termination of its agent.
use brainless_agent.Common.{
  ℕ, ◌<◌, ◌+◌, String, true, false, leb, some, ◌≡◌, refl, ◌∙◌, ap, arith, ◌==◌, eq_refl, ok, ◌>>=◌,
}
use brainless_agent.Common.Dict.{get, modify, get-modify}
use brainless_agent.Agents.Models.{Agent, AgentStatus}
use brainless_agent.Agents.Manager.{
  Manager, failed, change, note, log_event, has_status, get_agent, owned_child, is_parent, settle,
  begin_retry, begin_run, set_status,
}
use brainless_agent.Agents.Termination.Status.{has_status_self, has_status_other}

-- A child with its parent, both in the table.
record Family (parent i : String) (c : Agent) (m : Manager) : Type 0 where
  above : Agent
  at_parent : get parent m.agents ≡ some above
  at_child : get i m.agents ≡ some c
  owned : is_parent c.parent_agent_id above.agent_id ≡ true

abbrev with_error : String → Agent → Agent
with_error error a = record a { error = some error; status = AgentStatus.failed }

abbrev retried : Agent → Agent
retried a = record a { retries = a.retries + 1 }

settle_failed-agents :
    (now : ℕ) (i error : String) (m : Manager)
    → ((settle now i (failed error) m).1.agents ≡ modify i (with_error error) m.agents)
      × ((settle now i (failed error) m).1.max_retries ≡ m.max_retries)
unfolding settle change note log_event ◌>>=◌
settle_failed-agents now i error m = (ground arith, ground arith)

module _ (parent i : String) (c : Agent) (m : Manager) (f : Family parent i c m) where
  owned_child-pass : owned_child parent i m ≡ (ok c, m)
  unfolding owned_child get_agent ◌>>=◌
  owned_child-pass = ground (arith, f.at_parent, f.at_child, f.owned)

  begin_retry-pass :
      has_status AgentStatus.failed c ≡ true
      → leb m.max_retries c.retries ≡ false
      → begin_retry parent i m ≡ (ok tt, record m { agents = modify i retried m.agents })
  unfolding begin_retry change ◌>>=◌
  begin_retry-pass is few = rw owned_child-pass (rw (is, few))

  begin_run-pass :
      (now : ℕ)
      → has_status AgentStatus.terminated c ≡ false
      → has_status AgentStatus.paused c ≡ false
      → ((begin_run now parent i m).0 ≡ ok tt)
        × ((begin_run now parent i m).1.agents ≡ modify i (set_status AgentStatus.running) m.agents)
  unfolding begin_run change note log_event ◌>>=◌
  begin_run-pass now open_ awake =
      rw owned_child-pass (rw (open_, awake) (ground arith, ground arith))

Family-modify :
    (parent i : String) (c : Agent) (m n : Manager) (f : Agent → Agent)
    → (i == parent) ≡ false
    → (f c).parent_agent_id ≡ c.parent_agent_id
    → n.agents ≡ modify i f m.agents
    → Family parent i c m
    → Family parent i (f c) n
Family-modify parent i c m n f apart same e h = record {
  above = h.above;
  at_parent = ap (get parent) e ∙ get-modify i parent f m.agents ∙ rw apart h.at_parent;
  at_child = ap (get i) e ∙ get-modify i i f m.agents ∙ rw (eq_refl i, h.at_child);
  owned = ap (λ o. is_parent o h.above.agent_id) same ∙ h.owned;
}

-- The run of a terminated child that fails leaves it in the status failed, from where its parent
-- can retry and start it, if it has retries left: it runs again.
pub failed_revives :
    (now later : ℕ) (parent i error : String) (m : Manager) (p a : Agent)
    → get parent m.agents ≡ some p
    → get i m.agents ≡ some a
    → (i == parent) ≡ false
    → is_parent a.parent_agent_id p.agent_id ≡ true
    → a.status ≡ AgentStatus.terminated
    → a.retries < m.max_retries
    → let failed_run = (settle now i (failed error) m).1 in
      let again = (begin_run later parent i (begin_retry parent i failed_run).1) in
      (again.0 ≡ ok tt)
      × ((b : Agent) × (get i again.1.agents ≡ some b) × (b.status ≡ AgentStatus.running))
failed_revives now later parent i error m p a at_p at_i apart owned stopped few =
    let e = settle_failed-agents now i error m in
    let n = (settle now i (failed error) m).1 in
    let c = with_error error a in
    let first : Family parent i a m = record {
      above = p;
      at_parent = at_p;
      at_child = at_i;
      owned = owned;
    } in
    let second : Family parent i c n =
      Family-modify parent i a m n (with_error error) apart refl e.0 first in
    let retry =
      begin_retry-pass parent i c n second (has_status_self AgentStatus.failed c refl)
        (ground (arith, e.1)) in
    let n' : Manager = record n { agents = modify i retried n.agents } in
    let third : Family parent i (retried c) n' =
      Family-modify parent i c n n' retried apart refl refl second in
    let begun =
      begin_run-pass parent i (retried c) n' third later
        (has_status_other AgentStatus.terminated AgentStatus.failed (retried c) refl (λ q. cc))
        (has_status_other AgentStatus.paused AgentStatus.failed (retried c) refl (λ q. cc)) in
    rw retry (
      begun.0,
      (
        set_status AgentStatus.running (retried c),
        ap (get i) begun.1
            ∙ get-modify i i (set_status AgentStatus.running) n'.agents
            ∙ rw (eq_refl i, third.at_child),
        refl,
      ),
    )
