-- ===== src/Autonomy/Executor/Setup.antt =====
-- `ActionRuntime._register_controller_tools`: the tools of the computer and the resources that each
-- takes. Their handlers call the controller; they are in the environment.
use brainless_agent.Common.{String, true, false, List, [], ◌∷◌, if◌then◌else◌}
use brainless_agent.Common.Dict.{Dict, put, has}
use brainless_agent.Agents.Tools.{ToolSpec, ToolRegistry, RiskLevel, register}
use brainless_agent.Autonomy.Executor.State.{Runtime}

pub record Definition : Type 0 where
  pub tool_id : String
  pub permission : String
  pub schema : List String
  pub resources : List String

abbrev definition : (tool_id permission : String) (schema resources : List String) → Definition
definition tool_id permission schema resources = record {
  tool_id = tool_id;
  permission = permission;
  schema = schema;
  resources = resources;
}

-- The table `definitions`
unfoldable pub definitions : List Definition
definitions =
    definition "browser.navigate" "browser.navigate" ("url" ∷ []) ("browser" ∷ "screen" ∷ [])
    ∷ definition "mouse.click" "mouse.click" ("x" ∷ "y" ∷ []) ("mouse" ∷ "screen" ∷ [])
    ∷ definition "keyboard.write" "keyboard.write" ("text" ∷ []) ("keyboard" ∷ [])
    ∷ definition "filesystem.write" "filesystem.write" ("path" ∷ "content" ∷ []) ("filesystem" ∷ [])
    ∷ definition "filesystem.read" "filesystem.read" ("path" ∷ []) ("filesystem" ∷ [])
    ∷ definition "filesystem.exists" "filesystem.read" ("path" ∷ []) ("filesystem" ∷ [])
    ∷ definition "process.execute" "process.execute" ("command" ∷ []) ("process" ∷ [])
    ∷ []

-- The `ToolSpec` of a definition, with the defaults of the class
abbrev tool_of : Definition → ToolSpec
tool_of d = record {
  tool_id = d.tool_id;
  name = d.tool_id;
  description = "Runtime-controlled computer action";
  required_permissions = d.permission ∷ [];
  risk = RiskLevel.high;
  input_schema = d.schema;
  output_schema = "any";
  category = "computer";
  supported_platforms = "any" ∷ [];
  reversible = true;
  destructive = false;
}

-- The loop over `definitions`, on the registry and `_resources`. A tool that is there is kept.
unfoldable pub register_tools :
    List Definition → ToolRegistry × Dict (List String) → ToolRegistry × Dict (List String)
unfolding register
register_tools [] tables = tables
register_tools (d ∷ ds) (tools, resources) =
    let tools' = if has d.tool_id tools then tools else (register (tool_of d) tools).1 in
    register_tools ds (tools', put d.tool_id d.resources resources)

unfoldable pub register_controller_tools : {W V : Type 0} → Runtime W V → Runtime W V
unfolding register_tools definitions
register_controller_tools r =
    let (tools, resources) = register_tools definitions (r.manager.tools, []) in
    record r { manager = record r.manager { tools = tools }; resources = resources }
