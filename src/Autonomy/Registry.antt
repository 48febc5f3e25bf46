-- ===== src/Autonomy/Registry.antt =====
-- app/autonomy/registry.py: the agents that can be used again, with their record. `agents` holds
-- the agent objects as they are now. A success rate is compared as a fraction, without the
-- rounding of floats; durations are natural numbers.
pub mod Finding
use brainless_agent.Common.{
  ℕ, ◌+◌, ◌*◌, String, Bool, true, false, not, ◌&&◌, ◌==◌, Option, none, some, List, [], ◌∷◌, ltb,
  if◌then◌else◌, Exec, pure, throw, key_error, Result, ok, raise, subset, keep,
}
use brainless_agent.Common.Dict.{Dict, get, put, pop, modify, has, values}
use brainless_agent.Agents.Models.{Agent, AgentStatus}

pub record ReliabilityMetrics : Type 0 where
  pub successes : ℕ
  pub failures : ℕ
  pub verification_failures : ℕ
  pub retries : ℕ
  pub permission_denials : ℕ
  pub resource_conflicts : ℕ
  pub total_duration_ms : ℕ

abbrev pub no_results : ReliabilityMetrics
no_results = record {
  successes = 0;
  failures = 0;
  verification_failures = 0;
  retries = 0;
  permission_denials = 0;
  resource_conflicts = 0;
  total_duration_ms = 0;
}

-- `success_rate` as numerator and denominator
unfoldable pub success_rate : ReliabilityMetrics → ℕ × ℕ
success_rate m =
    if ltb 0 (m.successes + m.failures) then (m.successes, m.successes + m.failures) else (1, 1)

pub record AgentRegistry : Type 0 where
  pub agents : Dict Agent
  pub capabilities : Dict (List String)
  pub metrics : Dict ReliabilityMetrics

unfoldable pub register : Agent → List String → AgentRegistry → AgentRegistry
register agent capabilities r = record {
  agents = put agent.agent_id agent r.agents;
  capabilities = put agent.agent_id capabilities r.capabilities;
  metrics =
      if has agent.agent_id r.metrics then r.metrics else put agent.agent_id no_results r.metrics;
}

unfoldable pub retire : String → AgentRegistry → AgentRegistry
retire agent_id r = record r {
  agents = pop agent_id r.agents;
  capabilities = pop agent_id r.capabilities;
}

pub record TaskRequirements : Type 0 where
  pub capabilities : List String
  pub permissions : List String
  pub tools : List String
  pub role : String

-- `status in {READY, COMPLETED}`
abbrev pub is_available : AgentStatus → Bool
is_available AgentStatus.ready = true
is_available AgentStatus.completed = true
is_available status = false

-- The capabilities of a registered agent are always there.
abbrev pub capabilities_for : String → AgentRegistry → List String
capabilities_for agent_id r = elim (get agent_id r.capabilities) [ none ↦ [] | some c ↦ c ]

unfoldable pub fits : TaskRequirements → AgentRegistry → Agent → Bool
fits needs r agent =
    is_available agent.status
    && (subset needs.capabilities (capabilities_for agent.agent_id r)
        && (subset needs.permissions agent.permissions && subset needs.tools agent.available_tools))

abbrev pub metrics_of : String → AgentRegistry → ReliabilityMetrics
metrics_of agent_id r = elim (get agent_id r.metrics) [ none ↦ no_results | some m ↦ m ]

-- `b` has the greater success rate
unfoldable pub is_better : AgentRegistry → Agent → Agent → Bool
unfolding success_rate
is_better r a b =
    let (n, d) = success_rate (metrics_of a.agent_id r) in
    let (n', d') = success_rate (metrics_of b.agent_id r) in ltb (n * d') (n' * d)

-- `max(...)` from the first of the agents on: the first of the best.
unfoldable pub best_from : AgentRegistry → Agent → List Agent → Agent
best_from r a [] = a
best_from r a (b ∷ bs) = best_from r (if is_better r a b then b else a) bs

abbrev pub best : AgentRegistry → List Agent → Option Agent
best r [] = none
best r (a ∷ rest) = some (best_from r a rest)

unfoldable pub find : TaskRequirements → AgentRegistry → Option Agent
unfolding best_from
find needs r = best r (keep (fits needs r) (values r.agents))

abbrev one_if : Bool → ℕ
one_if true = 1
one_if false = 0

unfoldable pub record_result :
    (agent_id : String) (success : Bool) (duration_ms : ℕ)
    (verified retry permission_denied resource_conflict : Bool)
    → Exec AgentRegistry Unit
record_result agent_id success duration_ms verified retry permission_denied resource_conflict r =
    if has agent_id r.metrics
    then pure tt (record r {
      metrics =
          modify agent_id
            (λ m. record {
              successes = m.successes + one_if success;
              failures = m.failures + one_if (not success);
              verification_failures = m.verification_failures + one_if (success && not verified);
              retries = m.retries + one_if retry;
              permission_denials = m.permission_denials + one_if permission_denied;
              resource_conflicts = m.resource_conflicts + one_if resource_conflict;
              total_duration_ms = m.total_duration_ms + duration_ms;
            })
            r.metrics;
    })
    else throw (key_error agent_id) r

unfoldable pub search_by_role : String → AgentRegistry → List Agent
search_by_role role r = keep (λ agent. agent.role == role) (values r.agents)
