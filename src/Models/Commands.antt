-- ===== src/Models/Commands.antt =====
-- The commands of androidctld/src/androidctld/commands/command_models.py that act on the device, with
-- `CommandKind` of protocol.py and the times that runtime_policy.py gives to each kind.
use androidctl.Prelude.{ℕ, Text, Option, some, none}

pub data CommandKind : Type 0 where
  connect_kind observe_kind list_apps_kind open_kind tap_kind long_tap_kind type_kind : CommandKind
  focus_kind submit_kind scroll_kind global_kind wait_kind screenshot_kind close_kind : CommandKind

pub data OpenTarget : Type 0 where
  app_target : (package_name : Text) → OpenTarget
  url_target : (url : Text) → OpenTarget

-- The commands of `RefBoundActionCommand`, without the ref and the source screen.
pub data RefAction : Type 0 where
  tap long_tap focus submit : RefAction
  type_text : Text → RefAction
  scroll : (direction : Text) → RefAction

pub record RefBoundActionCommand : Type 0 where
  pub ref : Text
  pub source_screen_id : Text
  pub action : RefAction

pub data ActionCommand : Type 0 where
  open_command : OpenTarget → ActionCommand
  global_command : (action : Text) (source_screen_id : Option Text) → ActionCommand
  ref_command : RefBoundActionCommand → ActionCommand

abbrev pub kind_of_action : RefAction → CommandKind
kind_of_action tap = tap_kind
kind_of_action long_tap = long_tap_kind
kind_of_action focus = focus_kind
kind_of_action submit = submit_kind
kind_of_action (type_text _) = type_kind
kind_of_action (scroll _) = scroll_kind

unfoldable pub settle_min_grace_ms : CommandKind → ℕ
settle_min_grace_ms open_kind = 500
settle_min_grace_ms _ = 200

unfoldable pub settle_max_total_ms : CommandKind → ℕ
settle_max_total_ms open_kind = 4000
settle_max_total_ms _ = 1200

unfoldable pub settle_stable_window_ms : CommandKind → ℕ
settle_stable_window_ms open_kind = 500
settle_stable_window_ms _ = 300

unfoldable pub settle_snapshot_max_interval_ms : CommandKind → ℕ
settle_snapshot_max_interval_ms open_kind = 500
settle_snapshot_max_interval_ms _ = 250

abbrev pub settle_poll_slice_ms : ℕ
settle_poll_slice_ms = 100

abbrev pub transient_invalid_snapshot_max_retries : ℕ
transient_invalid_snapshot_max_retries = 2

-- `ACTION_TIMEOUT_MS_BY_COMMAND[kind]`; `none` is the `KeyError`.
unfoldable pub action_timeout_ms : CommandKind → Option ℕ
action_timeout_ms open_kind = some 5000
action_timeout_ms tap_kind = some 5000
action_timeout_ms long_tap_kind = some 5000
action_timeout_ms type_kind = some 8000
action_timeout_ms global_kind = some 5000
action_timeout_ms scroll_kind = some 5000
action_timeout_ms focus_kind = some 5000
action_timeout_ms submit_kind = some 5000
action_timeout_ms _ = none
