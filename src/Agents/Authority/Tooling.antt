-- ===== src/Agents/Authority/Tooling.antt =====
-- The log of `execute_tool` keeps the hierarchy confined.
use brainless_agent.Common.{ℕ, String, Error, Result, ok, raise, cancelled}
use brainless_agent.Common.Keeps.{Keeps}
use brainless_agent.Agents.Manager.{log_invocation}
use brainless_agent.Agents.Authority.Confined.{Base, IsConfined}
use brainless_agent.Agents.Authority.Frame.{frame_rules}

module _ {base : Base} where
  pub log_invocation-IsConfined :
      {V : Type 0} (str : Error → String) (now : ℕ) (i tool_id : String) (r : Result V)
      → Keeps (IsConfined base) (log_invocation str now i tool_id r)
  unfolding log_invocation
  log_invocation-IsConfined str now i tool_id (ok v) = search frame_rules depth 14
  log_invocation-IsConfined str now i tool_id (raise cancelled) = search frame_rules
  log_invocation-IsConfined str now i tool_id (raise e) = search frame_rules depth 14
