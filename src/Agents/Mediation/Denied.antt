-- ===== src/Agents/Mediation/Denied.antt =====
-- The outcome of `execute_tool` with and without authority.
use brainless_agent.Common.{
  ℕ, String, true, some, ◌≡◌, refl, ◌⊎◌, inl, inr, List, [], ◌∷◌, arith, contains, Result, ok,
  raise, Error, cancelled, ◌>>=◌, subset, All, and_right,
}
use brainless_agent.Common.Dict.{Dict, get}
use brainless_agent.Safety.Permissions.{ApprovalMode, mode_of, check}
use brainless_agent.Agents.Models.{Agent, AgentStatus}
use brainless_agent.Agents.Tools.{ToolSpec}
use brainless_agent.Agents.Tools
use brainless_agent.Agents.Manager.{
  Manager, get_agent, change, note, has_status, holds, check_policy, check_permissions, authorize,
  execute_tool, invoke_logged, log_invocation,
}
use brainless_agent.Agents.Mediation.Guards.{Authorized, authorize-ok}

Result-cases : (r : Result (Unit {0})) → (r ≡ ok tt) ⊎ ((e : Error) × (r ≡ raise e))
Result-cases (ok tt) = inl refl
Result-cases (raise e) = inr (e, refl)

-- A call that is not authorized raises, and the handler of the tool is not reached: the world in
-- which the tools act stays as it was.
pub execute_tool-denied :
    {W V : Type 0} (handle : String → Dict V → W → Result V × W) (str : Error → String) (now : ℕ)
    (i tool_id : String) (arguments : Dict V) (m : Manager) (world : W)
    → ¬ (Authorized now m i tool_id)
    → let outcome = execute_tool handle str now i tool_id arguments (m, world) in
      (outcome.1.1 ≡ world) × ((e : Error) × (outcome.0 ≡ raise e))
unfolding execute_tool
execute_tool-denied handle str now i tool_id arguments m world not_authorized =
    elim (Result-cases (authorize now i tool_id m).0) [
      | inl passed ↦ absurd (not_authorized (authorize-ok now i tool_id m passed))
      | inr (e, refused) ↦ (rw refused, (e, rw refused))
    ]

-- The log passes the result on.
result-log_invocation :
    {V : Type 0} (str : Error → String) (now : ℕ) (i tool_id : String) (r : Result V) (m : Manager)
    → (log_invocation str now i tool_id r m).0 ≡ r
unfolding log_invocation change note ◌>>=◌
result-log_invocation str now i tool_id (ok v) m = ground arith
result-log_invocation str now i tool_id (raise cancelled) m = refl
result-log_invocation str now i tool_id (raise e) m = ground arith

-- What an agent needs for a call that no policy holds up: it runs, it was granted the tool, it
-- holds each of the tool's permissions itself, and the policy approves each by itself.
pub record Entitled (m : Manager) (i tool_id : String) : Type 0 where
  pub agent : Agent
  pub found : get i m.agents ≡ some agent
  pub runs : has_status AgentStatus.running agent ≡ true
  pub granted : contains tool_id agent.available_tools ≡ true
  pub tool : ToolSpec
  pub registered : get tool_id m.tools ≡ some tool
  pub held : subset tool.required_permissions agent.permissions ≡ true
  pub approved : All (λ p. mode_of m.policy p ≡ ApprovalMode.auto_approve) tool.required_permissions

check_permissions-pass :
    (now : ℕ) (a : Agent) (ps : List String) (m : Manager)
    → subset ps a.permissions ≡ true
    → All (λ p. mode_of m.policy p ≡ ApprovalMode.auto_approve) ps
    → check_permissions now a ps m ≡ (ok tt, m)
unfolding check_permissions subset holds check_policy check ◌>>=◌
check_permissions-pass now a [] m held auto = refl
check_permissions-pass now a (p ∷ ps) m held auto = ground (
  arith,
  auto.0,
  check_permissions-pass now a ps m
      (and_right (contains p a.permissions) (subset ps a.permissions) held) auto.1,
)

authorize-pass :
    (now : ℕ) (i tool_id : String) (m : Manager)
    → Entitled m i tool_id
    → authorize now i tool_id m ≡ (ok tt, m)
unfolding authorize get_agent Tools.lookup ◌>>=◌
authorize-pass now i tool_id m e = ground (
  arith,
  e.found,
  e.runs,
  e.granted,
  e.registered,
  check_permissions-pass now e.agent e.tool.required_permissions m e.held e.approved,
)

-- A call by an entitled agent reaches the handler: the result and the new world are those of
-- invoking the tool in the registry.
pub execute_tool-runs :
    {W V : Type 0} (handle : String → Dict V → W → Result V × W) (str : Error → String) (now : ℕ)
    (i tool_id : String) (arguments : Dict V) (m : Manager) (world : W)
    → Entitled m i tool_id
    → let outcome = execute_tool handle str now i tool_id arguments (m, world) in
      (outcome.1.1 ≡ (Tools.invoke handle m.tools tool_id arguments world).1)
      × (outcome.0 ≡ (Tools.invoke handle m.tools tool_id arguments world).0)
unfolding execute_tool invoke_logged
execute_tool-runs handle str now i tool_id arguments m world e =
    let passed = authorize-pass now i tool_id m e in
    (rw passed refl, rw passed (result-log_invocation str now i tool_id _ m))
