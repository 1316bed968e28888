-- ===== src/Actions/Samples.antt =====
-- A snapshot with a focused input, its screens and the commands on it, for the tests.
use androidctl.Prelude.{text, true, false, none, some, [], ◌∷◌}
use androidctl.Models.Errors.{Raised, returned}
use androidctl.Models.Snapshots.{RawNode, RawSnapshot}
use androidctl.Models.Commands.{tap, submit, RefBoundActionCommand}
use androidctl.Models.Samples.{bounds, screen, button}
use androidctl.Runtime.Models.{Runtime}
use androidctl.Runtime.Samples.{snapshot, public_screen, shown_runtime}
use androidctl.Actions.Confirm.{TypeConfirmationContext}
use androidctl.Actions.Focus.{FocusConfirmationContext}
use androidctl.Models.Refs.{NodeHandle}
use androidctl.Actions.Submit.{direct}
use androidctl.Actions.Route.{SubmitRouteOutcome}
use androidctl.Actions.ActionTarget.{TargetBasis}
use androidctl.Models.Evidence.{live_ref}
use androidctl.Models.Semantic.{SemanticNode, targets}
use androidctl.Models.Public.{PublicNode, node, nil, cons}
use androidctl.Actions.Repair.{Refreshed}

-- A focused input with a text, in a snapshot of its own.
abbrev pub input : RawNode
input = record {
  rid = text "r1";
  window_id = text "w1";
  parent_rid = none;
  child_rids = [];
  class_name = text "EditText";
  resource_id = none;
  text = some (text "hello");
  content_desc = none;
  hint_text = none;
  state_description = none;
  pane_title = none;
  package_name = none;
  bounds = bounds 1;
  visible_to_user = true;
  important_for_accessibility = true;
  clickable = true;
  enabled = true;
  editable = true;
  focusable = true;
  focused = true;
  checkable = false;
  checked = false;
  selected = false;
  scrollable = false;
  password = false;
  actions = [];
}

abbrev pub with_input : RawSnapshot
with_input = record snapshot { nodes = input ∷ [] }

abbrev pub type_context : TypeConfirmationContext
type_context = record {
  ref = some (text "n1");
  request_handle = some (record { snapshot_id = 3; rid = text "r1" });
  binding = none;
}

abbrev pub focus_context : FocusConfirmationContext
focus_context = record {
  request_handle = some (record { snapshot_id = 3; rid = text "r1" });
  binding = none;
  resolved = none;
}

-- A refresh that leaves the runtime as it is.
abbrev pub same_again : Runtime → Raised Refreshed
same_again r = returned (record { session = r; public_screen = public_screen; artifacts = none })

abbrev pub tap_command : RefBoundActionCommand
tap_command = record { ref = text "n1"; source_screen_id = text "s0"; action = tap }

abbrev pub sent_to : NodeHandle
sent_to = record { snapshot_id = 3; rid = text "r1" }

-- The input of the snapshot, that is no longer focused.
abbrev pub blurred_input : RawSnapshot
blurred_input = record snapshot { nodes = record input { focused = false } ∷ [] }

-- A focused input that both screens know as `n1`.
abbrev focused_node : SemanticNode
focused_node = record (button (text "r1") 1) {
  role = text "input";
  state = text "focused" ∷ [];
  actions = text "submit" ∷ [];
  ref = text "n1";
}

abbrev focused_public : PublicNode
focused_public =
    node (some (text "node")) (text "input") (text "r1") none (some (text "n1")) []
      (text "submit" ∷ []) none none nil [] [] none none none none none

abbrev pub input_runtime : Runtime
input_runtime = record shown_runtime {
  screen_state = some (record {
    public_screen = some (record public_screen {
      screen_id = text "s1";
      surface = record {
        keyboard_visible = true;
        blocking_group = none;
        focus = record { input_ref = some (text "n1") };
      };
      groups = record { name = targets; nodes = cons focused_public nil } ∷ [];
    });
    compiled_screen = some (record screen { targets_nodes = focused_node ∷ [] });
    artifacts = none;
  });
}

abbrev pub submit_command : RefBoundActionCommand
submit_command = record { ref = text "n1"; source_screen_id = text "s1"; action = submit }

abbrev pub input_handle : NodeHandle
input_handle = record { snapshot_id = 4; rid = text "r1" }

abbrev pub direct_route : SubmitRouteOutcome
direct_route = record {
  route = direct;
  source_ref = text "n1";
  source_screen_id = text "s1";
  source_evidence = live_ref;
  route_screen_id = text "s1";
  subject_ref = text "n1";
  subject_handle = input_handle;
  dispatched_ref = text "n1";
  dispatched_handle = input_handle;
}

abbrev pub target_basis : TargetBasis
target_basis = record {
  source_ref = text "n1";
  source_screen_id = text "s1";
  subject_ref = some (text "n1");
  dispatched_ref = none;
  next_screen_id = text "screen-3";
}
