-- ===== src/Agents/Manager/Lifecycle.antt =====
-- The runs of an agent: start, retry, pause, resume, terminate and the result.
use brainless_agent.Common.{
  ℕ, ◌+◌, String, none, some, [], not, leb, contains, add, discard, if◌then◌else◌, Result, ok,
  raise, Exec, pure, throw, ◌>>=◌, ◌>>◌, require, modify_state, reads, runtime_error, cancelled,
  external,
}
use brainless_agent.Agents.Models.{Agent, AgentStatus, EventType}
use brainless_agent.Agents.Manager.State.{Manager, note, change, get_agent, owned_child}
use brainless_agent.Agents.Manager.Delegate.{has_status}

-- How the executor of an agent ends: with its result, with an exception (by its `str`), or by
-- the `CancelledError` of its cancelled task.
pub data Outcome : Type 0 where
  returned : String → Outcome
  failed : String → Outcome
  was_cancelled : Outcome

abbrev pub set_status : AgentStatus → Agent → Agent
set_status status agent = record agent { status = status }

-- `start_agent` up to the point where it waits for the executor.
unfoldable pub begin_run : (now : ℕ) (parent_agent_id agent_id : String) → Exec Manager Unit
begin_run now parent_agent_id agent_id = do
  agent ← owned_child parent_agent_id agent_id
  require (not (has_status AgentStatus.terminated agent))
      (throw (runtime_error "Cannot start a terminated agent"))
  require (not (has_status AgentStatus.paused agent))
      (throw (runtime_error "Resume a paused agent before starting it"))
  change agent_id (set_status AgentStatus.running)
  note now agent_id EventType.status "Agent started" []
  modify_state (λ m. record m { running = add agent_id m.running })

-- The handler of `CancelledError` in `_run`.
unfoldable pub end_cancelled : ℕ → String → Exec Manager String
end_cancelled now agent_id = do
  change agent_id (set_status AgentStatus.terminated)
  note now agent_id EventType.status "Agent terminated" []
  throw cancelled

-- `_run`, after its executor has ended. The status is read again, since other tasks ran meanwhile.
unfoldable pub settle : ℕ → String → Outcome → Exec Manager String
settle now agent_id (returned result) = do
  agent ← get_agent agent_id
  let finish : Exec Manager String = do
    change agent_id (λ a. record a { result = some result; status = AgentStatus.completed })
    note now agent_id EventType.result result []
    pure result
  if has_status AgentStatus.terminated agent then end_cancelled now agent_id else finish
settle now agent_id (failed error) = do
  change agent_id (λ a. record a { error = some error; status = AgentStatus.failed })
  note now agent_id EventType.error error []
  throw (external error)
settle now agent_id was_cancelled = end_cancelled now agent_id

-- The `finally` of `start_agent`.
unfoldable pub forget_run : String → Manager → Manager
forget_run agent_id m = record m { running = discard agent_id m.running }

-- `start_agent`. The executor is what happens from the start of its task to the end: its own calls
-- of the manager, and those of the tasks that run while it waits.
unfoldable pub start_agent :
    (now later : ℕ) (executor : Manager → Outcome × Manager) (parent_agent_id agent_id : String)
    → Exec Manager String
start_agent now later executor parent_agent_id agent_id = do
  begin_run now parent_agent_id agent_id
  λ m.
      let (outcome, m') = executor m in
      let (result, m'') = settle later agent_id outcome m' in (result, forget_run agent_id m'')

-- The guards of `retry_agent` and its count.
unfoldable pub begin_retry : (parent_agent_id agent_id : String) → Exec Manager Unit
begin_retry parent_agent_id agent_id = do
  agent ← owned_child parent_agent_id agent_id
  require (has_status AgentStatus.failed agent)
      (throw (runtime_error "Only failed agents may be retried"))
  m ← reads (λ m. ok m)
  require (not (leb m.max_retries agent.retries))
      (throw (runtime_error "Agent retry limit reached"))
  change agent_id (λ a. record a { retries = a.retries + 1 })

unfoldable pub retry_agent :
    (now later : ℕ) (executor : Manager → Outcome × Manager) (parent_agent_id agent_id : String)
    → Exec Manager String
retry_agent now later executor parent_agent_id agent_id = do
  begin_retry parent_agent_id agent_id
  start_agent now later executor parent_agent_id agent_id

-- A change of status with its event, where the agent has the status `from`.
unfoldable pub move_status :
    (now : ℕ) (agent_id : String) (from to : AgentStatus) (detail : String) (agent : Agent)
    → Exec Manager Unit
move_status now agent_id from to detail agent =
    let move : Exec Manager Unit = do
      change agent_id (set_status to)
      note now agent_id EventType.status detail []
    in if has_status from agent then move else pure tt

unfoldable pub pause_agent : (now : ℕ) (parent_agent_id agent_id : String) → Exec Manager Unit
pause_agent now parent_agent_id agent_id = do
  agent ← owned_child parent_agent_id agent_id
  move_status now agent_id AgentStatus.running AgentStatus.paused "Agent paused" agent

unfoldable pub resume_agent : (now : ℕ) (parent_agent_id agent_id : String) → Exec Manager Unit
resume_agent now parent_agent_id agent_id = do
  agent ← owned_child parent_agent_id agent_id
  move_status now agent_id AgentStatus.paused AgentStatus.ready "Agent resumed" agent

unfoldable pub terminate_agent : (now : ℕ) (parent_agent_id agent_id : String) → Exec Manager Unit
terminate_agent now parent_agent_id agent_id = do
  owned_child parent_agent_id agent_id
  modify_state (λ m.
      if contains agent_id m.running then record m { cancelled = add agent_id m.cancelled } else m)
  change agent_id (set_status AgentStatus.terminated)
  note now agent_id EventType.status "Agent terminated" []

abbrev result_of : Agent → Result String
result_of agent = elim agent.result [
  | none ↦ raise (runtime_error "Agent has not completed successfully")
  | some result ↦
      if has_status AgentStatus.completed agent
      then ok result
      else raise (runtime_error "Agent has not completed successfully")
]

unfoldable pub collect_result : (parent_agent_id agent_id : String) → Exec Manager String
collect_result parent_agent_id agent_id = do
  agent ← owned_child parent_agent_id agent_id
  reads (λ m. result_of agent)

unfoldable pub report_progress : (now : ℕ) (agent_id detail : String) → Exec Manager Unit
report_progress now agent_id detail = do
  get_agent agent_id
  note now agent_id EventType.progress detail []
