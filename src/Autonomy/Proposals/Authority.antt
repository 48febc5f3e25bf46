-- ===== src/Autonomy/Proposals/Authority.antt =====
-- What a proposal that passes can do.
use brainless_agent.Common.{
  String, Bool, true, some, ◌≡◌, subst, List, [], ◌∷◌, arith, ok, subset, contains,
  difference-subset, Bool-cases, Option-cases, inl, inr, pure, throw,
}
use brainless_agent.Common.Dict.{Dict, get, keys}
use brainless_agent.Agents.Models.{Agent}
use brainless_agent.Agents.Tools.{ToolSpec}
use brainless_agent.Agents.Manager.{Manager, get_agent}
use brainless_agent.Autonomy.Gates.{ActionContract}
use brainless_agent.Autonomy.Proposals.{
  ActionProposal, ActionRequest, check_tool, validate_action, owns_task,
}

-- The tool of the request is one that the agent was granted, with the one permission of the tool,
-- which the agent holds, and with arguments that are just those of the tool.
pub record Lawful {V : Type 0} (agent_id task_id : String) (q : ActionRequest V) (agent : Agent)
    (tool : ToolSpec) : Type 0 where
  pub for_agent : q.agent_id ≡ agent_id
  pub for_task : q.task_id ≡ task_id
  pub granted : contains q.tool_id agent.available_tools ≡ true
  pub permission_of : tool.required_permissions ≡ q.permission ∷ []
  pub held : contains q.permission agent.permissions ≡ true
  pub known_arguments : subset (keys q.arguments) tool.input_schema ≡ true
  pub all_arguments : subset tool.input_schema (keys q.arguments) ≡ true

module _ {V : Type 0} (is_blank : String → Bool) (contracts : Dict (ActionContract V))
    (new_id agent_id task_id : String) (proposal : ActionProposal V)
    (verification : List String) where
  check_tool-Lawful :
      (agent : Agent) (tool : ToolSpec) (q : ActionRequest V)
      → check_tool is_blank contracts new_id agent_id task_id proposal verification agent tool
        ≡ ok q
      → Lawful agent_id task_id q agent tool
  unfolding check_tool subset
  check_tool-Lawful agent tool q e = record {
    for_agent = ground (arith, e);
    for_task = ground (arith, e);
    granted = ground (arith, e);
    permission_of = ground (arith, e);
    held = ground (arith, e);
    known_arguments =
        ground (arith, e, difference-subset (keys proposal.arguments) tool.input_schema);
    all_arguments =
        ground (arith, e, difference-subset tool.input_schema (keys proposal.arguments));
  }

  tool_of :
      (agent : Agent) (tool : ToolSpec) (q : ActionRequest V)
      → check_tool is_blank contracts new_id agent_id task_id proposal verification agent tool
        ≡ ok q
      → proposal.action_type ≡ q.tool_id
  unfolding check_tool
  tool_of agent tool q e = ground (arith, e)

  -- A proposal that passes `validate_action` becomes a request for the agent and the task that the
  -- runtime names: the task is the agent's own if it has one, the tool is registered and granted
  -- to the agent, the agent itself holds the one permission of the tool, and the arguments are
  -- just those of the tool.
  pub validate_action-Lawful :
      (m : Manager) (q : ActionRequest V)
      → validate_action is_blank contracts new_id agent_id task_id proposal verification m ≡ ok q
      → (agent : Agent) × (tool : ToolSpec) × (get agent_id m.agents ≡ some agent)
        × (owns_task agent.current_task_id task_id ≡ true)
        × (get q.tool_id m.tools ≡ some tool)
        × Lawful agent_id task_id q agent tool
  unfolding validate_action get_agent pure throw
  validate_action-Lawful m q e = elim (Bool-cases (is_blank proposal.reason)) [
    | inl blank ↦ ground (arith, blank, e)
    | inr told ↦ elim (Option-cases (get agent_id m.agents)) [
      | inl stranger ↦ ground (arith, told, stranger, e)
      | inr (agent, found) ↦ elim (Bool-cases (owns_task agent.current_task_id task_id)) [
        | inr other ↦ elim (Option-cases (get proposal.action_type m.tools)) [
          | inl unknown ↦ ground (arith, told, found, other, unknown, e)
          | inr (tool, known) ↦ ground (arith, told, found, other, known, e)
        ]
        | inl own ↦ elim (Option-cases (get proposal.action_type m.tools)) [
          | inl unknown ↦ ground (arith, told, found, own, unknown, e)
          | inr (tool, known) ↦
              let passed : check_tool is_blank contracts new_id agent_id task_id proposal
                    verification agent tool
                  ≡ ok q =
                ground (arith, told, found, own, known, e) in
              (
                agent,
                tool,
                found,
                own,
                subst (λ t. get t m.tools ≡ some tool) (tool_of agent tool q passed) known,
                check_tool-Lawful agent tool q passed,
              )
        ]
      ]
    ]
  ]
