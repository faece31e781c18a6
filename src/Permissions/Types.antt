-- ===== src/Permissions/Types.antt =====
-- The types of src/permissions.rs, and the parsers of a mode and of a rule.
use fx_rust.Prelude.{String, str_eq, Result, ok, err, if◌then◌else◌}

pub data PermissionMode : Type 0 where
  ask auto yolo : PermissionMode

-- The error is the text that was refused.
unfoldable pub parse_mode : String → Result String PermissionMode
parse_mode s =
    if str_eq s "ask"
    then ok PermissionMode.ask
    else if str_eq s "auto"
    then ok PermissionMode.auto
    else if str_eq s "yolo"
    then ok PermissionMode.yolo
    else err s

-- `impl Display for PermissionMode`
unfoldable pub show_mode : PermissionMode → String
show_mode PermissionMode.ask = "ask"
show_mode PermissionMode.auto = "auto"
show_mode PermissionMode.yolo = "yolo"

pub data Rule : Type 0 where
  allow deny ask : Rule

unfoldable pub parse_rule : String → Result String Rule
parse_rule s =
    if str_eq s "allow"
    then ok Rule.allow
    else if str_eq s "deny"
    then ok Rule.deny
    else if str_eq s "ask"
    then ok Rule.ask
    else err s
