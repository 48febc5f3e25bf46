-- ===== src/Safety/Leases.antt =====
-- app/safety/leases.py: temporary capabilities of one agent for one task. A time is a number of
-- microseconds; each operation reads the clock once and gets the reading, and the new identifier
-- of `uuid4`, as arguments.
pub mod Scope
use brainless_agent.Common.Dict.{Dict, put, pop, keep_values, values}
use brainless_agent.Common.{
  ℕ, ◌+◌, ◌*◌, String, Bool, List, Option, none, some, not, ◌&&◌, ◌||◌, ◌==◌, ltb, leb, false,
  if◌then◌else◌, Exec, pure, throw, value_error, any,
}

pub record CapabilityLease : Type 0 where
  pub lease_id : String
  pub agent_id : String
  pub permission : String
  pub task_id : String
  pub granted_at : ℕ
  pub expires_at : ℕ

-- The property `active` at the time `now`.
unfoldable pub active : ℕ → CapabilityLease → Bool
active now lease = ltb now lease.expires_at

abbrev pub Registry : Type 0
Registry = Dict CapabilityLease

abbrev pub microseconds : ℕ → ℕ
microseconds seconds = seconds * 1000000

unfoldable pub grant :
    (lease_id : String) (now : ℕ) (agent_id permission task_id : String) (seconds : ℕ)
    → Exec Registry CapabilityLease
grant lease_id now agent_id permission task_id seconds leases =
    if (task_id == "") || not (leb 1 seconds && leb seconds 86400)
    then throw (value_error "Capability lease scope and duration are required") leases
    else let lease : CapabilityLease = record {
      lease_id = lease_id;
      agent_id = agent_id;
      permission = permission;
      task_id = task_id;
      granted_at = now;
      expires_at = now + microseconds seconds;
    } in
      pure lease (put lease_id lease leases)

unfoldable pub prune : ℕ → Registry → Registry
unfolding active
prune now leases = keep_values (active now) leases

-- `item.task_id == task_id`, where the agent may have no task.
unfoldable pub for_task : Option String → CapabilityLease → Bool
for_task none item = false
for_task (some task_id) item = item.task_id == task_id

unfoldable pub matches : ℕ → String → String → Option String → CapabilityLease → Bool
unfolding for_task active
matches now agent_id permission task_id item =
    (item.agent_id == agent_id)
    && ((item.permission == permission) && (for_task task_id item && active now item))

unfoldable pub permits :
    (now : ℕ) (agent_id permission : String) (task_id : Option String) → Exec Registry Bool
unfolding prune matches
permits now agent_id permission task_id leases =
    let kept = prune now leases in
    pure (any (values kept) (matches now agent_id permission task_id)) kept

unfoldable pub active_leases : ℕ → Exec Registry (List CapabilityLease)
unfolding prune
active_leases now leases = let kept = prune now leases in pure (values kept) kept

unfoldable pub revoke : String → Registry → Registry
revoke lease_id leases = pop lease_id leases
