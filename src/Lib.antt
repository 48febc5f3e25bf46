-- ===== src/Lib.antt =====
-- Verification of Brainless_agent, a program that lets a hierarchy of agents work on a computer
-- under permissions, budgets and human approval.
--
-- Parts and files. A file stands for the source file that its first comment names.
--   Common              exceptions and stateful methods, texts, sets and dictionaries of Python
--   Safety/Permissions  app/safety/permissions.py: `PermissionPolicy.check` is `check`
--   Safety/Leases       app/safety/leases.py: `grant`, `permits`, `prune`, `revoke`
--   Safety/Controls     app/safety/emergency_stop.py, pause.py, intervention.py
--   Agents/Models       app/agents/models.py
--   Agents/Tools        app/agents/tools.py: `ToolRegistry.get` is `lookup`
--   Agents/Manager      app/agents/manager.py: each method of `AgentManager` under its own name;
--                       `_event` is `note` and `log_event`, `_run` is `settle`, `start_agent` is
--                       `begin_run`, then `settle`, then `forget_run`
--   Agents/History      the calls of the manager in any order, as a step relation
--   Agents/Authority, Agents/Mediation, Agents/Termination   theorems on the manager
--   Autonomy/Actions    app/autonomy/models.py
--   Autonomy/Governor   app/autonomy/governor.py: `record` is `record_result`
--   Autonomy/TaskGraph  `TaskGraph` of app/autonomy/task_graph.py: `add` is `add_task`
--   Autonomy/Scheduler  `TaskScheduler` of app/autonomy/task_graph.py
--   Autonomy/Gates      app/autonomy/mode_policy.py, contracts.py, recovery.py
--   Autonomy/Approvals  app/autonomy/approvals.py: `wait_decision` is the loop of `request`
--   Autonomy/Registry   app/autonomy/registry.py
--   Autonomy/Proposals  app/autonomy/proposals.py: `check_agent` and `check_tool` are parts of
--                       `ProposalValidator.validate_action`
--   Autonomy/World      app/autonomy/world_state.py and world_model.py: `WorldStateManager.record`
--                       is `record_fact`
--   Autonomy/Locks      app/autonomy/resources.py
--   Autonomy/Executor   app/autonomy/executor.py: `_result` is `finish`, and Checks has the gates
--                       of `perform`, Act the action under its locks, Loop `run_loop`
--   Autonomy/Events     app/autonomy/events.py
--   Autonomy/Missions   app/autonomy/mission.py, operator.py and perception_service.py, with what
--                       app/autonomy/task_runner.py saves of a task graph
--   Autonomy/Engine     `run_graph` and `GoalCompletionVerifier` of app/autonomy/task_engine.py
--   Learning/Skills     `SkillRegistry` of app/learning/core.py: `get` is `fetch`, `_audit` is
--                       `write_audit`
--   EventSystem/Actions app/event_system/actions.py: `refusal` and `attempts` are parts of `execute`
--   Runtime/Managers    app/runtime/action_manager.py, recovery_manager.py, state_manager.py
--   Samples             in a folder: concrete values and runs
--
-- How they interact. The manager holds the tool registry, the policy and the leases, and asks them
-- in `execute_tool`. The runtime of app/autonomy/executor.py asks the governor, the mode, the
-- contract and the policy about an action, takes its locks, has the manager run the tool, observes
-- the computer and compares what it saw with the prediction of the world model.
-- The rounds of the task engine start the tasks that the scheduler picks and hand each to such a
-- runtime. The operator keeps missions in their file and gives them turns, woken by the bus.
--
-- Conventions. A method that changes an object and may raise is a function from the state to a result
-- and the new state; what was written before a raise stays written. A set is the list of its members,
-- a dictionary the list of its entries. Times are microseconds, confidences millionths. Readings of
-- the clock, new identifiers of `uuid4`, tool handlers and executors are arguments. A method under a
-- lock is one step. The runs of the manager and of the recovery, the approvals, the intervention gate
-- and the event actions are split where they wait, so that other calls come in between; the other
-- coroutines, `perform`, `run_loop` and `run_once` among them, are one step each, so that what is
-- shown of them is shown of calls that no other call of the same object comes into.
-- Equal dynamic values and the texts of exceptions are handed in where the code uses them.
--
-- Fuel. `visit` of the task graph recurses on fuel, one more than the tasks of the graph, which is
-- enough since the tasks on the way are distinct tasks of the graph. `block_dependents` has the same
-- fuel: each call below another is for one pending task less.
-- The rounds of `run_graph` have fuel too: a round uses up a retry of a task or leaves fewer tasks
-- pending, so `total` of Autonomy/Engine/Budget, which counts both, bounds them. `loop_steps`
-- recurses on the steps that the loop has left.
--
-- Not modelled: the orchestrator, checkpoints and the methods of the task engine around `run_graph`,
-- the bus and the detectors of app/event_system, the rest of app/learning and app/perception, which
-- stand for later; the dashboard, the user interfaces, voice, the browser and computer drivers,
-- language model providers, and the storage of memory and extraction, which are input and output.
pub mod Common
pub mod Safety
pub mod Agents
pub mod Autonomy
pub mod EventSystem
pub mod Runtime
pub mod Learning
