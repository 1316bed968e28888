-- ===== src/Actions/Requests.antt =====
-- actions/request_builder.py and device/action_models.py: the request that is sent to the device for a
-- command on a ref, and the node that the ref stands for. `bad_request` is not reached: every command
-- has one of the kinds.
use androidctl.Prelude.{
  ℕ, Text, text, false, Option, none, some, [], ◌∷◌, is_some, not, ◌||◌, if◌then◌else◌,
}
use androidctl.TextEquivalence.{Unicode}
use androidctl.Models.Errors.{
  screen_not_ready, value, DaemonError, Raised, returned, daemon_error, runtime_error, value_error,
}
use androidctl.Models.Commands.{
  RefAction, tap, long_tap, focus, submit, type_text, scroll, RefBoundActionCommand, kind_of_action,
  action_timeout_ms,
}
use androidctl.Models.Refs.{NodeHandle}
use androidctl.Runtime.Models.{Runtime, ScreenArtifacts}
use androidctl.Runtime.Screen.{current_public_screen}
use androidctl.Runtime.Cancel.{kind_value}
use androidctl.Artifacts.Scan.{ArtifactFiles}
use androidctl.Refs.Repair.{RepairDecision, is_resolved, resolve_ref_decision, ref_repair_error}

pub data DeviceActionTarget : Type 0 where
  handle_target : NodeHandle → DeviceActionTarget
  coordinates_target : (x y : ℕ) → DeviceActionTarget
  none_target : DeviceActionTarget

-- Each request with its target and its time out.
pub data DeviceActionRequest : Type 0 where
  tap_request long_tap_request : DeviceActionTarget → (timeout_ms : ℕ) → DeviceActionRequest
  type_request : DeviceActionTarget → Text → (timeout_ms : ℕ) → DeviceActionRequest
  node_request : DeviceActionTarget → (action : Text) (timeout_ms : ℕ) → DeviceActionRequest
  scroll_request swipe_request :
      DeviceActionTarget → (direction : Text) (timeout_ms : ℕ) → DeviceActionRequest
  global_request : DeviceActionTarget → (action : Text) (timeout_ms : ℕ) → DeviceActionRequest
  launch_app_request :
      DeviceActionTarget → (package_name : Text) (timeout_ms : ℕ) → DeviceActionRequest
  open_url_request : DeviceActionTarget → (url : Text) (timeout_ms : ℕ) → DeviceActionRequest

pub record BuiltDeviceActionRequest : Type 0 where
  pub payload : DeviceActionRequest
  pub request_handle : Option NodeHandle

unfoldable pub required_action_kind_for_request : DeviceActionRequest → Text
required_action_kind_for_request (tap_request _ _) = text "tap"
required_action_kind_for_request (long_tap_request _ _) = text "longTap"
required_action_kind_for_request (type_request _ _ _) = text "type"
required_action_kind_for_request (node_request _ _ _) = text "node"
required_action_kind_for_request (scroll_request _ _ _) = text "scroll"
required_action_kind_for_request (swipe_request _ _ _) = text "gesture"
required_action_kind_for_request (global_request _ _ _) = text "global"
required_action_kind_for_request (launch_app_request _ _ _) = text "launchApp"
required_action_kind_for_request (open_url_request _ _ _) = text "openUrl"

abbrev request_of : RefAction → DeviceActionTarget → ℕ → DeviceActionRequest
request_of tap t ms = tap_request t ms
request_of long_tap t ms = long_tap_request t ms
request_of (type_text s) t ms = type_request t s ms
request_of focus t ms = node_request t (kind_value (kind_of_action focus)) ms
request_of submit t ms = node_request t (kind_value (kind_of_action submit)) ms
request_of (scroll direction) t ms = scroll_request t direction ms

-- `none` is the `KeyError` of `action_timeout_ms`.
unfoldable pub build_action_request_for_binding :
    NodeHandle → RefBoundActionCommand → Option BuiltDeviceActionRequest
unfolding action_timeout_ms
build_action_request_for_binding h command =
    elim (action_timeout_ms (kind_of_action command.action)) [
      | none ↦ none
      | some ms ↦ some (record {
        payload = request_of command.action (handle_target h) ms;
        request_handle = some h;
      })
    ]

-- The error of `ensure_screen_ready`, where it raises.
unfoldable pub ensure_screen_ready : Text → Runtime → Option DaemonError
ensure_screen_ready workspace_root r =
    if not (is_some r.screen_state) || not (is_some r.latest_snapshot)
    then some (record {
      code = screen_not_ready;
      retryable = false;
      details = (text "workspaceRoot", value (some workspace_root)) ∷ [];
      http_status = 200;
    })
    else none

abbrev pub current_artifacts : Runtime → Option ScreenArtifacts
current_artifacts r = elim r.screen_state [ none ↦ none | some s ↦ s.artifacts ]

-- The handle of a decision, or its error.
unfoldable pub handle_of_decision : Runtime → RepairDecision → Raised NodeHandle
unfolding ref_repair_error
handle_of_decision r d =
    if not (is_resolved d.status)
    then daemon_error (ref_repair_error d (current_public_screen r) (current_artifacts r))
    else elim d.binding [ none ↦ runtime_error | some b ↦ returned b.handle ]

unfoldable pub resolve_ref_target :
    Unicode → ArtifactFiles → Text → Runtime → Text → Text → Raised NodeHandle
unfolding ensure_screen_ready handle_of_decision resolve_ref_decision
resolve_ref_target u files workspace_root r ref source_screen_id =
    elim (ensure_screen_ready workspace_root r) [
      | some e ↦ daemon_error e
      | none ↦ elim (resolve_ref_decision u files r ref source_screen_id) [
        | returned d ↦ handle_of_decision r d
        | daemon_error e ↦ daemon_error e
        | runtime_error ↦ runtime_error
        | value_error ↦ value_error
      ]
    ]
