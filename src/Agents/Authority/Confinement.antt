-- ===== src/Agents/Authority/Confinement.antt =====
-- The hierarchy stays confined over every history of calls.
use brainless_agent.Common.{String, none, some, ◌≡◌, none≢some, ℕ, Option, List}
use brainless_agent.Common.Dict.{get, values}
use brainless_agent.Safety.Permissions.{PermissionPolicy}
use brainless_agent.Agents.Tools.{ToolRegistry}
use brainless_agent.Agents.Models.{Agent}
use brainless_agent.Agents.Manager.{Manager, StoreCall, new_manager}
use brainless_agent.Agents.History.{Step, Reach, here, next}
use brainless_agent.Agents.Authority.Confined.{Base, IsConfined, IsRoot, based-IsConfined}
use brainless_agent.Agents.Authority.Frame.{
  assign_task-IsConfined, grant_tool-IsConfined, set_event_subscriptions-IsConfined,
  begin_run-IsConfined, settle-IsConfined, begin_retry-IsConfined, pause_agent-IsConfined,
  resume_agent-IsConfined, terminate_agent-IsConfined, report_progress-IsConfined, confined,
}
use brainless_agent.Agents.Frames.{forget_run-Keeps, authorize-Keeps}
use brainless_agent.Agents.Authority.Leasing.{lease_permission-IsConfined}
use brainless_agent.Agents.Authority.Tooling.{log_invocation-IsConfined}
use brainless_agent.Agents.Authority.Delegation.{
  grant_permission-IsConfined, revoke_permission-IsConfined,
}
use brainless_agent.Agents.Authority.Creation.{create_root-IsConfined, create_agent-IsConfined}

module _ {base : Base} where
  Step-IsConfined :
      {V : Type 0} {m n : Manager} → Step V m n → IsConfined base m → IsConfined base n
  Step-IsConfined (Step.root now i name role objective permissions fresh) h =
      create_root-IsConfined now i name role objective permissions _ fresh h
  Step-IsConfined (Step.child now i t parent name role objective task ps ts context given fresh) h =
      create_agent-IsConfined now i t parent name role objective task ps ts context given _ fresh h
  Step-IsConfined (Step.subscribe now parent i s) h =
      (set_event_subscriptions-IsConfined now parent i s).from _ h
  Step-IsConfined (Step.assign now t parent i task context given) h =
      (assign_task-IsConfined now t parent i task context given).from _ h
  Step-IsConfined (Step.grant now parent i p) h =
      (grant_permission-IsConfined now parent i p).from _ h
  Step-IsConfined (Step.revoke now parent i p) h =
      (revoke_permission-IsConfined now parent i p).from _ h
  Step-IsConfined (Step.lease iso now l parent i p t seconds) h =
      (lease_permission-IsConfined iso now l parent i p t seconds).from _ h
  Step-IsConfined (Step.tool now parent i t) h = (grant_tool-IsConfined now parent i t).from _ h
  Step-IsConfined (Step.progress now i detail) h =
      (report_progress-IsConfined now i detail).from _ h
  Step-IsConfined (Step.begin now parent i) h = (begin_run-IsConfined now parent i).from _ h
  Step-IsConfined (Step.settled now i outcome) h = (settle-IsConfined now i outcome).from _ h
  Step-IsConfined (Step.forgotten i) h = forget_run-Keeps confined i _ h
  Step-IsConfined (Step.retry parent i) h = (begin_retry-IsConfined parent i).from _ h
  Step-IsConfined (Step.pause now parent i) h = (pause_agent-IsConfined now parent i).from _ h
  Step-IsConfined (Step.resume now parent i) h = (resume_agent-IsConfined now parent i).from _ h
  Step-IsConfined (Step.terminate now parent i) h =
      (terminate_agent-IsConfined now parent i).from _ h
  Step-IsConfined (Step.authorized now i t) h = (authorize-Keeps confined now i t).from _ h
  Step-IsConfined (Step.invoked str now i t r) h =
      (log_invocation-IsConfined str now i t r).from _ h

new_manager-IsConfined :
    (tools : ToolRegistry) (policy : PermissionPolicy) (retries : ℕ)
    (store : Option (List StoreCall))
    → IsConfined none (new_manager tools policy retries store)
unfolding get values
new_manager-IsConfined tools policy retries store = record {
  keyed = λ i a e. cc;
  unique = λ i j a b e. cc;
  rooted = λ i a e. absurd (cc);
  bounded = λ i j a r p e. cc;
  backed = tt;
  kept = λ i given e. absurd (none≢some e);
}

history-IsConfined :
    {base : Base} {V : Type 0} {m n : Manager} → Reach V m n → IsConfined base m → IsConfined base n
history-IsConfined here h = h
history-IsConfined (next r s) h = Step-IsConfined s (history-IsConfined r h)

-- Take a new manager after any history of calls that gave it a root, and any history after it, each in
-- any order and interleaving. The agents have this root alone, with the permissions that it had, no
-- more and no fewer; no agent has a permission among its own that the root has not; and every lease
-- is of a permission that the root has. So creation, grants, leases, revocation, retries and tool
-- calls never widen the authority that the root was given.
pub Reach-IsConfined :
    (V : Type 0) (tools : ToolRegistry) (policy : PermissionPolicy) (retries : ℕ)
    (store : Option (List StoreCall)) {m n : Manager} (i : String) (root : Agent)
    → Reach V (new_manager tools policy retries store) m
    → get i m.agents ≡ some root
    → IsRoot root
    → Reach V m n
    → IsConfined (some (i, root.permissions)) n
Reach-IsConfined V tools policy retries store {m = m} i root before found top after =
    history-IsConfined after (
      based-IsConfined i root m found top
        (history-IsConfined before (new_manager-IsConfined tools policy retries store)))
