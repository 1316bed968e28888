-- ===== src/Actions/RouteGuards.antt =====
-- actions/submit_routing.py: the failures of a route, the nodes that it looks up and the checks that
-- it makes.
use androidctl.Prelude.{
  Text, text, text_eq, opt_text_eq, Bool, true, false, ◌||◌, not, Option, none, some, List, [], ◌∷◌,
  ◌++◌, keep_if, if◌then◌else◌,
}
use androidctl.Models.Errors.{target_blocked, target_not_actionable, Detail, value, DaemonError}
use androidctl.Models.Semantic.{SemanticNode, CompiledScreen, GroupName}
use androidctl.Models.Public.{
  PublicNode, PublicScreen, node_ref, node_role, nodes_of_groups, iter_public_nodes,
}
use androidctl.Waits.Signature.{compiled_screen_nodes}
use androidctl.Semantics.Groups.{group_text}
use androidctl.Actions.FocusedInput.{
  public_focused_input_ref, public_node_is_focused_input, keyboard_blocker_allows_submit_subject,
}

-- `SubmitRouteFailure`, whose code is TARGET_BLOCKED for a blocked target.
pub record SubmitRouteFailure : Type 0 where
  pub is_blocked : Bool
  pub reason : Text
  pub ref : Option Text
  pub action : Option Text
  pub blocking_group : Option Text
  pub focused_input_ref : Option Text

abbrev optional : Text → Option Text → List (Text × Detail)
optional name none = []
optional name (some t) = (name, value (some t)) ∷ []

-- `SubmitRouteFailure.to_error`
abbrev pub to_error : SubmitRouteFailure → DaemonError
to_error f = record {
  code = if f.is_blocked then target_blocked else target_not_actionable;
  retryable = false;
  details =
      (text "reason", value (some f.reason))
      ∷ (text "ref", value f.ref)
      ∷ (optional (text "action") f.action
          ++ optional (text "blockingGroup") f.blocking_group
          ++ optional (text "focusedInputRef") f.focused_input_ref);
  http_status = 200;
}

abbrev pub failure : Text → Option Text → Option Text → SubmitRouteFailure
failure reason ref action = record {
  is_blocked = false;
  reason = reason;
  ref = ref;
  action = action;
  blocking_group = none;
  focused_input_ref = none;
}

abbrev pub blocked_by : GroupName → Option Text → SubmitRouteFailure
blocked_by blocking ref = record {
  is_blocked = true;
  reason = text "blocked_by_" ++ group_text blocking;
  ref = ref;
  action = none;
  blocking_group = some (group_text blocking);
  focused_input_ref = none;
}

-- `nodes[0] if len(nodes) == 1 else None`
abbrev pub only {ℓ} : {A : Type ℓ} → List A → Option A
only (n ∷ []) = some n
only _ = none

-- `_unique_public_node`
unfoldable pub unique_public_node : PublicScreen → Text → Option PublicNode
unfolding iter_public_nodes
unique_public_node s ref =
    only (keep_if (λ n. opt_text_eq (node_ref n) (some ref)) (nodes_of_groups s.groups))

-- `_unique_semantic_node_for_ref`
unfoldable pub unique_semantic_node_for_ref : CompiledScreen → Text → Option SemanticNode
unfolding compiled_screen_nodes
unique_semantic_node_for_ref s ref =
    only (keep_if (λ n. text_eq n.ref ref) (compiled_screen_nodes s))

-- `_semantic_node_for_handle`: the first node of the id.
unfoldable pub node_for_raw_rid : Text → List SemanticNode → Option SemanticNode
node_for_raw_rid rid [] = none
node_for_raw_rid rid (n ∷ ns) =
    let rest = node_for_raw_rid rid ns in if text_eq n.raw_rid rid then some n else rest

-- `_ensure_subject_unblocked`, with the failure that it raises
unfoldable pub ensure_subject_unblocked :
    PublicScreen → CompiledScreen → SemanticNode → PublicNode → Option SubmitRouteFailure
unfolding keyboard_blocker_allows_submit_subject
ensure_subject_unblocked screen compiled n public_node = elim screen.surface.blocking_group [
  | none ↦ none
  | some blocking ↦
      if text_eq n.group (group_text blocking)
        || keyboard_blocker_allows_submit_subject blocking screen compiled public_node n
      then none
      else some (blocked_by blocking (node_ref public_node))
]

-- `_ensure_subject_admissible`
unfoldable pub ensure_subject_admissible :
    PublicScreen → CompiledScreen → SemanticNode → PublicNode → Option SubmitRouteFailure
unfolding ensure_subject_unblocked
ensure_subject_admissible screen compiled n public_node =
    elim (ensure_subject_unblocked screen compiled n public_node) [
      | some f ↦ some f
      | none ↦
          if not (text_eq (node_role public_node) (text "input"))
            || not (text_eq n.role (text "input"))
          then some
              (failure (text "not_input_capable") (node_ref public_node) (some (text "submit")))
          else if not (public_node_is_focused_input screen public_node)
          then some (record (failure (text "focus_mismatch") (node_ref public_node) none) {
            focused_input_ref = public_focused_input_ref screen;
          })
          else none
    ]

-- `_ensure_unblocked`
unfoldable pub ensure_unblocked : PublicScreen → SemanticNode → Text → Option SubmitRouteFailure
ensure_unblocked screen n ref = elim screen.surface.blocking_group [
  | none ↦ none
  | some blocking ↦
      if text_eq n.group (group_text blocking) then none else some (blocked_by blocking (some ref))
]

-- `_current_handle`, for the snapshot that the session has.
