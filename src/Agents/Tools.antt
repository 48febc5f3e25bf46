-- ===== src/Agents/Tools.antt =====
-- app/agents/tools.py: the registry that is the only way to run a tool. The handlers, and the
-- world that they act on, are handed in: `handle` says what the handler of a tool does with its
-- arguments to the world `W`.
use brainless_agent.Common.{
  String, concat, Bool, none, some, List, is_empty, if◌then◌else◌, Result, ok, raise, Exec, pure,
  throw, key_error, value_error, difference, to_set, sorted, join,
}
use brainless_agent.Common.Dict.{Dict, get, put, has, keys}

pub data RiskLevel : Type 0 where
  low medium high : RiskLevel

pub record ToolSpec : Type 0 where
  pub tool_id : String
  pub name : String
  pub description : String
  pub required_permissions : List String
  pub risk : RiskLevel
  pub input_schema : List String
  pub output_schema : String
  pub category : String
  pub supported_platforms : List String
  pub reversible : Bool
  pub destructive : Bool

abbrev pub ToolRegistry : Type 0
ToolRegistry = Dict ToolSpec

unfoldable pub register : ToolSpec → Exec ToolRegistry Unit
register tool tools =
    if has tool.tool_id tools
    then throw (value_error (concat "Tool already registered: " tool.tool_id)) tools
    else pure tt (put tool.tool_id tool tools)

-- `self._tools[tool_id]`, with the error of a missing key
unfoldable pub lookup : String → ToolRegistry → Result ToolSpec
lookup tool_id tools = elim (get tool_id tools) [
  | none ↦ raise (key_error (concat "Unknown tool: " tool_id))
  | some tool ↦ ok tool
]

abbrev pub registered : String → ToolRegistry → Bool
registered tool_id tools = has tool_id tools

abbrev pub tool_ids : ToolRegistry → List String
tool_ids tools = keys tools

module _ {W V : Type 0} (handle : String → Dict V → W → Result V × W) where
  -- `await self.tools.invoke(tool_id, arguments)`
  unfoldable pub invoke : ToolRegistry → String → Dict V → Exec W V
  unfolding lookup
  invoke tools tool_id arguments world = elim (lookup tool_id tools) [
    | raise e ↦ (raise e, world)
    | ok tool ↦
        let missing = difference (to_set tool.input_schema) (keys arguments) in
        if is_empty missing then handle tool_id arguments world else (
          raise (value_error (concat "Missing tool arguments: " (join ", " (sorted missing)))),
          world,
        )
  ]
