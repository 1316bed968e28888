-- ===== src/Actions/Submit.antt =====
-- actions/submit_confirmation.py: what a submit has done to the input that it was sent to.
use androidctl.Prelude.{
  Text, text, text_eq, opt_text_eq, nat_eq, Bool, true, false, ◌&&◌, ◌||◌, not, Option, none, some,
  List, [], ◌∷◌, if◌then◌else◌,
}
use androidctl.TextEquivalence.{Unicode}
use androidctl.Models.Errors.{
  submit_not_confirmed, Detail, value, DaemonError, Raised, returned, daemon_error,
}
use androidctl.Models.Snapshots.{RawNode, RawSnapshot}
use androidctl.Models.Public.{PublicScreen}
use androidctl.Models.Refs.{get, NodeHandle, RefBinding}
use androidctl.Models.Commands.{RefBoundActionCommand}
use androidctl.Runtime.Models.{Runtime}
use androidctl.Actions.Confirm.{
  TypeConfirmationContext, snapshot_node_for_handle, reused_ref_confirmation_node,
  fingerprint_rematch_confirmation_node,
}
use androidctl.Actions.Structure.{submit_public_change_is_attributable}

-- `ActionStatus` of device/types.py
pub data ActionStatus : Type 0 where
  done partial timeout : ActionStatus

-- `action_result.status.value`
abbrev pub status_value : ActionStatus → Text
status_value done = text "done"
status_value partial = text "partial"
status_value timeout = text "timeout"

abbrev pub is_done : ActionStatus → Bool
is_done done = true
is_done _ = false

pub record SubmitConfirmationContext : Type 0 where
  pub ref : Option Text
  pub request_handle : Option NodeHandle
  pub binding : Option RefBinding

pub data SubmitStatus : Type 0 where
  same_target target_gone public_change unconfirmed : SubmitStatus

pub record SubmitConfirmationOutcome : Type 0 where
  pub status : SubmitStatus
  pub node : Option RawNode
  pub target_handle : NodeHandle

-- The kinds of a submit's route.
pub data RouteKind : Type 0 where
  direct attributed : RouteKind

abbrev pub is_attributed : RouteKind → Bool
is_attributed direct = false
is_attributed attributed = true

abbrev pub build_submit_confirmation_context :
    Runtime → RefBoundActionCommand → Option NodeHandle → SubmitConfirmationContext
build_submit_confirmation_context r command request_handle = record {
  ref = some command.ref;
  request_handle = request_handle;
  binding = get r.ref_registry command.ref;
}

abbrev pub handle_eq : NodeHandle → NodeHandle → Bool
handle_eq a b = nat_eq a.snapshot_id b.snapshot_id && text_eq a.rid b.rid

-- `context.request_handle is not None and command_target_handle != context.request_handle`
abbrev pub sent_elsewhere : Option NodeHandle → NodeHandle → Bool
sent_elsewhere none h = false
sent_elsewhere (some requested) h = not (handle_eq h requested)

abbrev pub as_type_context : SubmitConfirmationContext → TypeConfirmationContext
as_type_context c = record { ref = c.ref; request_handle = c.request_handle; binding = c.binding }

abbrev pub first_node : Option RawNode → Option RawNode → Option RawNode
first_node (some n) other = some n
first_node none other = other

abbrev pub has_left : Option RawSnapshot → RawSnapshot → Bool
has_left none s = false
has_left (some previous) s =
    not (opt_text_eq s.package_name previous.package_name)
    || not (opt_text_eq s.activity_name previous.activity_name)

abbrev submit_error : List (Text × Detail) → DaemonError
submit_error details = record {
  code = submit_not_confirmed;
  retryable = true;
  details = details;
  http_status = 200;
}

abbrev reason : Text → Text × Detail
reason t = (text "reason", value (some t))

module _ (u : Unicode) where
  -- The node where the handle has none, for a session and a context.
  unfoldable pub node_by_context :
      Option Runtime → RawSnapshot → Option SubmitConfirmationContext → NodeHandle → Option RawNode
  unfolding reused_ref_confirmation_node fingerprint_rematch_confirmation_node
  node_by_context (some r) snapshot (some c) h =
      if sent_elsewhere c.request_handle h
      then none
      else first_node (reused_ref_confirmation_node r snapshot (as_type_context c))
          (fingerprint_rematch_confirmation_node u r snapshot (as_type_context c))
  node_by_context none snapshot context h = none
  node_by_context (some r) snapshot none h = none

  unfoldable pub submit_confirmation_node :
      Option Runtime → RawSnapshot → Option SubmitConfirmationContext → NodeHandle → Option RawNode
  unfolding node_by_context snapshot_node_for_handle
  submit_confirmation_node session snapshot context h =
      first_node (snapshot_node_for_handle snapshot (some h))
        (node_by_context session snapshot context h)

-- `validate_submit_confirmation` for the node that it has found, and for a change of the screen that
-- is attributable to the submit.
unfoldable pub confirm_node :
    RouteKind → NodeHandle → Bool → Option RawNode → Raised SubmitConfirmationOutcome
confirm_node route h changed none =
    returned (record { status = target_gone; node = none; target_handle = h })
confirm_node route h changed (some n) =
    if changed
    then returned (record { status = public_change; node = some n; target_handle = h })
    else if not n.focused || not n.editable
    then (if is_attributed route
        then daemon_error (submit_error (reason (text "attributed_submit_blur_only") ∷ []))
        else returned (record { status = same_target; node = some n; target_handle = h }))
    else daemon_error (submit_error (reason (text "target_still_focused_editable") ∷ []))

module _ (u : Unicode) where
  -- From the check of the foreground app on.
  unfoldable pub confirm_submit :
      Option Runtime
      → RouteKind
      → Option RawSnapshot
      → RawSnapshot
      → Option PublicScreen
      → PublicScreen
      → Option SubmitConfirmationContext
      → NodeHandle
      → Raised SubmitConfirmationOutcome
  unfolding confirm_node submit_confirmation_node submit_public_change_is_attributable
  confirm_submit session route previous snapshot previous_screen public_screen context h =
      if has_left previous snapshot
      then returned (record { status = unconfirmed; node = none; target_handle = h })
      else confirm_node route h (submit_public_change_is_attributable previous_screen public_screen)
          (submit_confirmation_node u session snapshot context h)

  unfoldable pub validate_submit_confirmation :
      Option Runtime
      → RouteKind
      → ActionStatus
      → Option RawSnapshot
      → RawSnapshot
      → Option PublicScreen
      → PublicScreen
      → Option SubmitConfirmationContext
      → Option NodeHandle
      → Raised SubmitConfirmationOutcome
  unfolding confirm_submit
  validate_submit_confirmation session route status previous snapshot previous_screen public_screen
        context none =
      daemon_error (submit_error (reason (text "missing_command_target_identity") ∷ []))
  validate_submit_confirmation session route status previous snapshot previous_screen public_screen
        context (some h) =
      let confirmed =
        confirm_submit session route previous snapshot previous_screen public_screen context h in
      if is_done status
      then confirmed
      else daemon_error (
          submit_error (
            reason (text "device_submit_not_accepted")
            ∷ (text "status", value (some (status_value status)))
            ∷ []))
