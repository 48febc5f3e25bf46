-- ===== src/Safety/Permissions.antt =====
-- app/safety/permissions.py: the permission names, the approval modes and the global policy.
use brainless_agent.Common.Dict.{Dict, get}
use brainless_agent.Common.{
  String, Bool, false, List, [], ◌∷◌, none, some, ◌&&◌, ◌||◌, ◌==◌, if◌then◌else◌, Exec,
  permission_denied, approval_needed, pure, throw,
}

pub data Permission : Type 0 where
  keyboard_read keyboard_write : Permission
  mouse_read mouse_move mouse_click mouse_drag : Permission
  screen_read : Permission
  window_read window_control : Permission
  clipboard_read clipboard_write : Permission
  browser_read browser_navigate browser_click browser_type : Permission
  filesystem_read filesystem_write : Permission
  process_read process_execute : Permission

-- `Permission.X.value`
unfoldable pub value : Permission → String
value keyboard_read = "keyboard.read"
value keyboard_write = "keyboard.write"
value mouse_read = "mouse.read"
value mouse_move = "mouse.move"
value mouse_click = "mouse.click"
value mouse_drag = "mouse.drag"
value screen_read = "screen.read"
value window_read = "window.read"
value window_control = "window.control"
value clipboard_read = "clipboard.read"
value clipboard_write = "clipboard.write"
value browser_read = "browser.read"
value browser_navigate = "browser.navigate"
value browser_click = "browser.click"
value browser_type = "browser.type"
value filesystem_read = "filesystem.read"
value filesystem_write = "filesystem.write"
value process_read = "process.read"
value process_execute = "process.execute"

pub data ApprovalMode : Type 0 where
  auto_approve require_approval deny : ApprovalMode

-- A set of pairs `(agent_id, permission)`.
abbrev pub Approvals : Type 0
Approvals = List (String × String)

unfoldable pub is_approved : String → String → Approvals → Bool
is_approved a p [] = false
is_approved a p ((b, q) ∷ r) = ((a == b) && (p == q)) || is_approved a p r

unfoldable pub remove_approval : String → String → Approvals → Approvals
remove_approval a p [] = []
remove_approval a p ((b, q) ∷ r) =
    if (a == b) && (p == q) then remove_approval a p r else (b, q) ∷ remove_approval a p r

pub record PermissionPolicy : Type 0 where
  pub modes : Dict ApprovalMode
  pub approved : Approvals

unfoldable pub approve_once : String → String → PermissionPolicy → PermissionPolicy
unfolding is_approved
approve_once agent_id permission policy =
    if is_approved agent_id permission policy.approved
    then policy
    else record policy { approved = (agent_id, permission) ∷ policy.approved }

-- `self.modes.get(permission, ApprovalMode.AUTO_APPROVE)`
unfoldable pub mode_of : PermissionPolicy → String → ApprovalMode
mode_of policy permission = elim (get permission policy.modes) [
  | none ↦ auto_approve
  | some mode ↦ mode
]

check_mode : ApprovalMode → String → String → Exec PermissionPolicy Unit
unfolding is_approved remove_approval
check_mode auto_approve a p policy = pure tt policy
check_mode deny a p policy =
    throw (permission_denied a p "Global policy denies this permission") policy
check_mode require_approval a p policy =
    if is_approved a p policy.approved
    then pure tt (record policy { approved = remove_approval a p policy.approved })
    else throw (approval_needed a p "Human approval is required") policy

unfoldable pub check : String → String → Exec PermissionPolicy Unit
unfolding check_mode mode_of
check agent_id permission policy = check_mode (mode_of policy permission) agent_id permission policy
