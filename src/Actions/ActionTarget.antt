-- ===== src/Actions/ActionTarget.antt =====
-- actions/action_target.py, and what actions/executor.py tells of the identity of the node that a focus,
-- a type or a submit was for.
use androidctl.Prelude.{
  Text, text_eq, text_in, nonempty, nat_eq, opt_text_eq, length, Bool, true, false, ◌&&◌, ◌||◌, not,
  Option, none, some, List, [], ◌∷◌, ◌++◌, keep_if, if◌then◌else◌,
}
use androidctl.Models.Snapshots.{RawNode}
use androidctl.Models.Semantic.{SemanticNode, CompiledScreen}
use androidctl.Models.Public.{PublicScreen, node_ref, nodes_of_groups, iter_public_nodes}
use androidctl.Models.Refs.{NodeHandle}
use androidctl.Models.Commands.{RefAction, focus, type_text, submit}
use androidctl.Models.Evidence.{
  ActionTargetEvidence, live_ref, ref_repair, request_target_evidence, resolved_target_evidence,
  reused_ref_evidence, fingerprint_rematch_evidence, focus_confirmation, type_confirmation,
  submit_confirmation, attributed_route, target_gone_evidence, public_change_evidence,
  ambiguous_successor, ActionTargetIdentityStatus, same_ref, successor, gone, identity_unconfirmed,
  ActionTargetPayload,
}
use androidctl.Waits.Signature.{compiled_screen_nodes}
use androidctl.Actions.Confirm.{
  Strategy, resolved_target, request_target, reused_ref, fingerprint_rematch,
  TypeConfirmationCandidate,
}
use androidctl.Actions.Focus.{FocusConfirmationOutcome}
use androidctl.Actions.Submit.{
  RouteKind, direct, attributed, same_target, target_gone, public_change, unconfirmed,
  SubmitConfirmationOutcome,
}
use androidctl.Actions.Route.{SubmitRouteOutcome}

-- The refs of the nodes of an id, each once.
abbrev add_ref : Text → List Text → List Text
add_ref r refs = if text_in r refs then refs else r ∷ refs

unfoldable pub refs_of_raw_rid : Text → List SemanticNode → List Text
refs_of_raw_rid rid [] = []
refs_of_raw_rid rid (n ∷ ns) =
    let rest = refs_of_raw_rid rid ns in
    if text_eq n.raw_rid rid && nonempty n.ref then add_ref n.ref rest else rest

-- `_public_ref_is_unique`
unfoldable pub public_ref_is_unique : PublicScreen → Text → Bool
unfolding iter_public_nodes
public_ref_is_unique s ref =
    nat_eq (length (keep_if (λ n. opt_text_eq (node_ref n) (some ref)) (nodes_of_groups s.groups)))
      1

abbrev pub if_unique : PublicScreen → List Text → Option Text
if_unique s (r ∷ []) = if public_ref_is_unique s r then some r else none
if_unique s _ = none

-- `_unique_public_ref_for_raw_rid`
unfoldable pub unique_public_ref_for_raw_rid : CompiledScreen → PublicScreen → Text → Option Text
unfolding refs_of_raw_rid public_ref_is_unique compiled_screen_nodes
unique_public_ref_for_raw_rid compiled s rid =
    if_unique s (refs_of_raw_rid rid (compiled_screen_nodes compiled))

-- `public_ref_for_handle`
unfoldable pub public_ref_for_handle :
    Option CompiledScreen → PublicScreen → Option NodeHandle → Option Text
unfolding unique_public_ref_for_raw_rid
public_ref_for_handle (some compiled) s (some h) =
    if not (text_eq compiled.screen_id s.screen_id)
      || not (nat_eq compiled.source_snapshot_id h.snapshot_id)
    then none
    else unique_public_ref_for_raw_rid compiled s h.rid
public_ref_for_handle _ s _ = none

-- `public_ref_for_raw_node`
unfoldable pub public_ref_for_raw_node :
    Option CompiledScreen → PublicScreen → Option RawNode → Option Text
unfolding unique_public_ref_for_raw_rid
public_ref_for_raw_node (some compiled) s (some n) =
    if not (text_eq compiled.screen_id s.screen_id)
    then none
    else unique_public_ref_for_raw_rid compiled s n.rid
public_ref_for_raw_node _ s _ = none

-- What the payloads of one action share.
pub record TargetBasis : Type 0 where
  pub source_ref : Text
  pub source_screen_id : Text
  pub subject_ref : Option Text
  pub dispatched_ref : Option Text
  pub next_screen_id : Text

abbrev pub payload :
    TargetBasis
    → ActionTargetIdentityStatus
    → List ActionTargetEvidence
    → Option Text
    → Text
    → ActionTargetPayload
payload b status evidence next subject = record {
  source_ref = b.source_ref;
  source_screen_id = b.source_screen_id;
  subject_ref = subject;
  next_screen_id = b.next_screen_id;
  identity_status = status;
  evidence = evidence;
  dispatched_ref = b.dispatched_ref;
  next_ref = next;
}

-- `build_action_target_payload`
unfoldable pub build_action_target_payload :
    TargetBasis
    → ActionTargetIdentityStatus
    → List ActionTargetEvidence
    → Option Text
    → Option ActionTargetPayload
build_action_target_payload b status evidence next = elim b.subject_ref [
  | none ↦ none
  | some subject ↦ some (payload b status evidence next subject)
]

abbrev pub same_or_successor : Text → Text → ActionTargetIdentityStatus
same_or_successor subject next = if text_eq next subject then same_ref else successor

-- `build_same_or_successor_action_target`, with the payload of the known subject
unfoldable pub build_same_or_successor_action_target :
    TargetBasis → Option Text → List ActionTargetEvidence → Option ActionTargetPayload
unfolding build_action_target_payload
build_same_or_successor_action_target b none evidence = none
build_same_or_successor_action_target b (some next) evidence = elim b.subject_ref [
  | none ↦ none
  | some subject ↦ some (payload b (same_or_successor subject next) evidence (some next) subject)
]

abbrev pub strategy_evidence : Option Strategy → List ActionTargetEvidence
strategy_evidence none = []
strategy_evidence (some resolved_target) = resolved_target_evidence ∷ []
strategy_evidence (some request_target) = request_target_evidence ∷ []
strategy_evidence (some reused_ref) = reused_ref_evidence ∷ []
strategy_evidence (some fingerprint_rematch) = fingerprint_rematch_evidence ∷ []

-- `_confirmation_evidence`
abbrev pub confirmation_evidence :
    ActionTargetEvidence → Option Strategy → ActionTargetEvidence → List ActionTargetEvidence
confirmation_evidence source strategy command =
    source ∷ (strategy_evidence strategy ++ command ∷ [])

abbrev pub attributed_evidence : RouteKind → List ActionTargetEvidence
attributed_evidence direct = []
attributed_evidence attributed = attributed_route ∷ []

abbrev pub route_evidence : Option SubmitRouteOutcome → List ActionTargetEvidence
route_evidence none = []
route_evidence (some o) = attributed_evidence o.route

-- `_submit_confirmation_evidence`
abbrev pub submit_confirmation_evidence :
    ActionTargetEvidence → Option SubmitRouteOutcome → List ActionTargetEvidence
submit_confirmation_evidence source route =
    source ∷ (route_evidence route ++ submit_confirmation ∷ [])

abbrev pub or_else : Option Text → Option Text → Option Text
or_else none other = other
or_else (some t) other = some t

module _ (b : TargetBasis) (s : PublicScreen) (compiled : Option CompiledScreen) where
  -- The branch of a focus.
  unfoldable pub focus_target :
      ActionTargetEvidence → Option FocusConfirmationOutcome → Option ActionTargetPayload
  unfolding public_ref_for_handle build_same_or_successor_action_target
  focus_target source none =
      build_same_or_successor_action_target b (public_ref_for_handle compiled s none)
        (confirmation_evidence source none focus_confirmation)
  focus_target source (some o) =
      build_same_or_successor_action_target b
        (public_ref_for_handle compiled s (some o.target_handle))
        (confirmation_evidence source (some o.strategy) focus_confirmation)

  -- The branch of a type.
  unfoldable pub type_target :
      ActionTargetEvidence → Option TypeConfirmationCandidate → Option ActionTargetPayload
  unfolding public_ref_for_handle public_ref_for_raw_node build_same_or_successor_action_target
  type_target source none =
      build_same_or_successor_action_target b (public_ref_for_handle compiled s none)
        (confirmation_evidence source none type_confirmation)
  type_target source (some c) =
      build_same_or_successor_action_target b
        (or_else (public_ref_for_handle compiled s c.target_handle)
          (public_ref_for_raw_node compiled s (some c.node)))
        (confirmation_evidence source (some c.strategy) type_confirmation)

  abbrev pub is_direct : Option SubmitRouteOutcome → Bool
  is_direct none = false
  is_direct (some o) = elim o.route [ direct ↦ true | attributed ↦ false ]

  -- The branches of a submit.
  unfoldable pub submit_target :
      ActionTargetEvidence
      → Option SubmitRouteOutcome
      → SubmitConfirmationOutcome
      → Option ActionTargetPayload
  unfolding public_ref_for_handle public_ref_for_raw_node build_same_or_successor_action_target
      build_action_target_payload
  submit_target source route o =
      let evidence = submit_confirmation_evidence source route in
      elim o.status [
        | target_gone ↦
            build_action_target_payload b gone (evidence ++ target_gone_evidence ∷ []) none
        | same_target ↦
            build_same_or_successor_action_target b
              (or_else (public_ref_for_handle compiled s (some o.target_handle))
                (public_ref_for_raw_node compiled s o.node))
              evidence
        | public_change ↦
            build_action_target_payload b identity_unconfirmed
              (evidence ++ public_change_evidence ∷ []) none
        | unconfirmed ↦
            if is_direct route
            then none
            else build_action_target_payload b identity_unconfirmed
                (evidence ++ ambiguous_successor ∷ []) none
      ]

-- `source_evidence` of `_build_success_action_target`
abbrev pub source_evidence_of : Option SubmitRouteOutcome → Bool → ActionTargetEvidence
source_evidence_of (some o) repaired_once = o.source_evidence
source_evidence_of none repaired_once = if repaired_once then ref_repair else live_ref

-- `_build_success_action_target`, for a command on a ref.
unfoldable pub build_success_action_target :
    RefAction
    → TargetBasis
    → Bool
    → PublicScreen
    → Option CompiledScreen
    → Option FocusConfirmationOutcome
    → Option TypeConfirmationCandidate
    → Option SubmitConfirmationOutcome
    → Option SubmitRouteOutcome
    → Option ActionTargetPayload
unfolding focus_target type_target submit_target
build_success_action_target focus b repaired s compiled focused typed submitted route =
    focus_target b s compiled (source_evidence_of route repaired) focused
build_success_action_target (type_text _) b repaired s compiled focused typed submitted route =
    type_target b s compiled (source_evidence_of route repaired) typed
build_success_action_target submit b repaired s compiled focused typed none route = none
build_success_action_target submit b repaired s compiled focused typed (some o) route =
    submit_target b s compiled (source_evidence_of route repaired) route o
build_success_action_target _ b repaired s compiled focused typed submitted route = none
