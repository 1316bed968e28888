-- ===== src/Actions/Focus.antt =====
-- actions/focus_confirmation.py: the input that a focus action has reached.
use androidctl.Prelude.{
  Text, text, Bool, true, false, ◌&&◌, Option, none, some, List, [], ◌∷◌, if◌then◌else◌,
}
use androidctl.TextEquivalence.{Unicode}
use androidctl.Models.Errors.{
  target_not_actionable, Detail, value, DaemonError, Raised, returned, daemon_error,
}
use androidctl.Models.Snapshots.{RawNode, RawSnapshot}
use androidctl.Models.Refs.{NodeHandle, RefBinding}
use androidctl.Runtime.Models.{Runtime}
use androidctl.Actions.Confirm.{
  ResolvedTarget, target_handle_of, TypeConfirmationContext, Strategy, resolved_target,
  request_target, reused_ref, fingerprint_rematch, TypeConfirmationCandidate, add_candidate,
  snapshot_node_for_handle, reused_ref_confirmation_node, fingerprint_rematch_confirmation_node,
}

-- `FocusConfirmationContext`
pub record FocusConfirmationContext : Type 0 where
  pub request_handle : Option NodeHandle
  pub binding : Option RefBinding
  pub resolved : Option ResolvedTarget

pub record FocusConfirmationOutcome : Type 0 where
  pub strategy : Strategy
  pub node : RawNode
  pub target_handle : NodeHandle

abbrev pub type_context : FocusConfirmationContext → TypeConfirmationContext
type_context c = record {
  ref = elim c.binding [ none ↦ none | some b ↦ some b.ref ];
  request_handle = c.request_handle;
  binding = c.binding;
}

abbrev pub same_strategy : Strategy → Strategy → Bool
same_strategy resolved_target resolved_target = true
same_strategy request_target request_target = true
same_strategy reused_ref reused_ref = true
same_strategy fingerprint_rematch fingerprint_rematch = true
same_strategy _ _ = false

module _ (u : Unicode) where
  -- The candidates have no handle of their own here.
  unfoldable pub focus_candidates :
      Runtime → RawSnapshot → FocusConfirmationContext → List TypeConfirmationCandidate
  unfolding add_candidate snapshot_node_for_handle reused_ref_confirmation_node
      fingerprint_rematch_confirmation_node
  focus_candidates r snapshot context =
      let typed = type_context context in
      add_candidate u fingerprint_rematch (fingerprint_rematch_confirmation_node u r snapshot typed)
        none
        (add_candidate u reused_ref (reused_ref_confirmation_node r snapshot typed) none (
          add_candidate u request_target (snapshot_node_for_handle snapshot context.request_handle)
            none
            (add_candidate u resolved_target
              (snapshot_node_for_handle snapshot (target_handle_of context.resolved)) none [])))

  -- `focus_confirmation_candidates`
  unfoldable pub focus_confirmation_candidates :
      Runtime → Option RawSnapshot → FocusConfirmationContext → List TypeConfirmationCandidate
  unfolding focus_candidates
  focus_confirmation_candidates r none context = []
  focus_confirmation_candidates r (some snapshot) context = focus_candidates r snapshot context

unfoldable pub first_valid_focus_candidate :
    List TypeConfirmationCandidate → Option TypeConfirmationCandidate
first_valid_focus_candidate [] = none
first_valid_focus_candidate (c ∷ cs) =
    let rest = first_valid_focus_candidate cs in
    if c.node.focused && c.node.editable then some c else rest

unfoldable pub with_strategy :
    Strategy → List TypeConfirmationCandidate → Option TypeConfirmationCandidate
with_strategy s [] = none
with_strategy s (c ∷ cs) =
    let rest = with_strategy s cs in if same_strategy c.strategy s then some c else rest

-- `previous_candidate is not None and previous_candidate.node.focused`
abbrev pub was_focused : Option TypeConfirmationCandidate → Bool
was_focused none = false
was_focused (some c) = c.node.focused

abbrev focus_error : List (Text × Detail) → DaemonError
focus_error details = record {
  code = target_not_actionable;
  retryable = true;
  details = details;
  http_status = 200;
}

-- The end of the check. Without a valid candidate there is no strategy to look for among the
-- previous ones, and both errors have no details.
unfoldable pub confirm_focus :
    RawSnapshot
    → List TypeConfirmationCandidate
    → Option TypeConfirmationCandidate
    → Raised FocusConfirmationOutcome
unfolding with_strategy
confirm_focus snapshot previous none = daemon_error (focus_error [])
confirm_focus snapshot previous (some c) =
    if was_focused (with_strategy c.strategy previous)
    then daemon_error (focus_error ((text "reason", value (some (text "already_focused"))) ∷ []))
    else returned (record {
      strategy = c.strategy;
      node = c.node;
      target_handle = record { snapshot_id = snapshot.snapshot_id; rid = c.node.rid };
    })

unfoldable pub validate_focus_confirmation :
    Unicode
    → Runtime
    → Option RawSnapshot
    → RawSnapshot
    → FocusConfirmationContext
    → Raised FocusConfirmationOutcome
unfolding confirm_focus first_valid_focus_candidate focus_confirmation_candidates
validate_focus_confirmation u r previous snapshot context =
    confirm_focus snapshot (focus_confirmation_candidates u r previous context)
      (first_valid_focus_candidate (focus_confirmation_candidates u r (some snapshot) context))
