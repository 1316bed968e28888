-- ===== src/Runtime/Cancel.antt =====
-- `raise_if_stale` of androidctld/src/androidctld/snapshots/refresh.py: a command whose lifecycle lease
-- is no longer current is cancelled. The workspace root is fixed for a daemon.
use androidctl.Prelude.{Text, text, false, Option, none, some, List, [], ◌∷◌, ◌++◌, if◌then◌else◌}
use androidctl.Models.Errors.{command_cancelled, Detail, value, DaemonError}
use androidctl.Models.Commands.{
  CommandKind, connect_kind, observe_kind, list_apps_kind, open_kind, tap_kind, long_tap_kind,
  type_kind, focus_kind, submit_kind, scroll_kind, global_kind, wait_kind, screenshot_kind,
  close_kind,
}
use androidctl.Runtime.Models.{Runtime}
use androidctl.Runtime.Lifecycle.{Lease, is_current}

-- `kind.value`
abbrev pub kind_value : CommandKind → Text
kind_value connect_kind = text "connect"
kind_value observe_kind = text "observe"
kind_value list_apps_kind = text "listApps"
kind_value open_kind = text "open"
kind_value tap_kind = text "tap"
kind_value long_tap_kind = text "longTap"
kind_value type_kind = text "type"
kind_value focus_kind = text "focus"
kind_value submit_kind = text "submit"
kind_value scroll_kind = text "scroll"
kind_value global_kind = text "global"
kind_value wait_kind = text "wait"
kind_value screenshot_kind = text "screenshot"
kind_value close_kind = text "close"

-- What the error says of the command: its id and kind and, for a wait, the kind of the wait.
pub record CommandInfo : Type 0 where
  pub workspace_root : Text
  pub command_id : Option Text
  pub kind : Option CommandKind
  pub wait_name : Option Text

abbrev given : Text → Option Text → List (Text × Detail)
given name none = []
given name (some v) = (name, value (some v)) ∷ []

abbrev kind_details : Option CommandKind → Option Text → List (Text × Detail)
kind_details none wait_name = []
kind_details (some wait_kind) wait_name =
    (text "kind", value (some (text "wait"))) ∷ given (text "waitKind") wait_name
kind_details (some kind) wait_name = (text "kind", value (some (kind_value kind))) ∷ []

unfoldable pub cancelled_error : CommandInfo → DaemonError
cancelled_error info = record {
  code = command_cancelled;
  retryable = false;
  details =
      (text "workspaceRoot", value (some info.workspace_root))
        ∷ given (text "commandId") info.command_id
      ++ kind_details info.kind info.wait_name;
  http_status = 200;
}

-- The error that is raised, if one is.
unfoldable pub raise_if_stale : CommandInfo → Option Lease → Runtime → Option DaemonError
unfolding cancelled_error
raise_if_stale info none r = none
raise_if_stale info (some lease) r =
    if is_current lease r then none else some (cancelled_error info)
