-- ===== src/Actions/Route.antt =====
-- actions/submit_routing.py: where a submit is sent to, the input itself or the button that it is
-- attributed to.
use androidctl.Prelude.{
  Text, text, text_eq, text_in, nat_eq, ◌||◌, not, Option, none, some, List, [], ◌∷◌, if◌then◌else◌,
}
use androidctl.Models.Errors.{Raised, returned, daemon_error}
use androidctl.Models.Snapshots.{RawSnapshot}
use androidctl.Models.Semantic.{SemanticNode, CompiledScreen}
use androidctl.Models.Public.{PublicNode, PublicScreen, node_actions, node_submit_refs}
use androidctl.Models.Refs.{NodeHandle}
use androidctl.Models.Evidence.{ActionTargetEvidence}
use androidctl.Models.Commands.{RefBoundActionCommand}
use androidctl.Runtime.Models.{Runtime}
use androidctl.Runtime.Screen.{current_public_screen, current_compiled_screen}
use androidctl.Waits.Signature.{compiled_screen_nodes}
use androidctl.Actions.Submit.{RouteKind, direct, attributed}
use androidctl.Actions.RouteGuards.{
  SubmitRouteFailure, to_error, failure, unique_public_node, unique_semantic_node_for_ref,
  node_for_raw_rid, ensure_subject_admissible, ensure_unblocked,
}

pub record SubmitRouteOutcome : Type 0 where
  pub route : RouteKind
  pub source_ref : Text
  pub source_screen_id : Text
  pub source_evidence : ActionTargetEvidence
  pub route_screen_id : Text
  pub subject_ref : Text
  pub subject_handle : NodeHandle
  pub dispatched_ref : Text
  pub dispatched_handle : NodeHandle

abbrev pub handle_in : RawSnapshot → SemanticNode → NodeHandle
handle_in snapshot n = record { snapshot_id = snapshot.snapshot_id; rid = n.raw_rid }

abbrev pub raise_failure : SubmitRouteFailure → Raised SubmitRouteOutcome
raise_failure f = daemon_error (to_error f)

module _ (command : RefBoundActionCommand) (evidence : ActionTargetEvidence) (screen : PublicScreen)
    (compiled : CompiledScreen) (snapshot : RawSnapshot) where
  abbrev pub outcome : RouteKind → SemanticNode → Text → SemanticNode → SubmitRouteOutcome
  outcome route subject ref dispatched = record {
    route = route;
    source_ref = command.ref;
    source_screen_id = command.source_screen_id;
    source_evidence = evidence;
    route_screen_id = screen.screen_id;
    subject_ref = subject.ref;
    subject_handle = handle_in snapshot subject;
    dispatched_ref = ref;
    dispatched_handle = handle_in snapshot dispatched;
  }

  -- The attributed route, once both nodes of the ref are found.
  unfoldable pub route_to :
      SemanticNode → Text → PublicNode → SemanticNode → Raised SubmitRouteOutcome
  unfolding ensure_unblocked
  route_to subject ref public_node n = elim (ensure_unblocked screen n ref) [
    | some f ↦ raise_failure f
    | none ↦
        if not (text_in (text "tap") (node_actions public_node))
          || not (text_in (text "tap") n.actions)
        then raise_failure
            (failure (text "submit_route_target_not_tap_capable") (some ref) (some (text "tap")))
        else returned (outcome attributed subject ref n)
  ]

  abbrev pub route_found :
      SemanticNode → Text → Option PublicNode → Option SemanticNode → Raised SubmitRouteOutcome
  route_found subject ref (some public_node) (some n) = route_to subject ref public_node n
  route_found subject ref _ _ =
      raise_failure (failure (text "submit_route_unresolved_target") (some ref) (some (text "tap")))

  -- The route of an admissible subject, by its `submit_refs`.
  unfoldable pub route_of : SemanticNode → PublicNode → List Text → Raised SubmitRouteOutcome
  unfolding route_to unique_public_node unique_semantic_node_for_ref
  route_of subject public_node [] =
      if not (text_in (text "submit") (node_actions public_node))
      then raise_failure
          (failure (text "submit_route_missing") (some subject.ref) (some (text "submit")))
      else returned (outcome direct subject subject.ref subject)
  route_of subject public_node (ref ∷ []) =
      route_found subject ref (unique_public_node screen ref)
        (unique_semantic_node_for_ref compiled ref)
  route_of subject public_node (_ ∷ _ ∷ _) =
      raise_failure
        (failure (text "submit_route_ambiguous") (some subject.ref) (some (text "submit")))

  unfoldable pub route_public : SemanticNode → Option PublicNode → Raised SubmitRouteOutcome
  unfolding route_of ensure_subject_admissible
  route_public subject none =
      raise_failure (failure (text "submit_route_unresolved_subject") (some subject.ref) none)
  route_public subject (some public_node) =
      elim (ensure_subject_admissible screen compiled subject public_node) [
        | some f ↦ raise_failure f
        | none ↦ route_of subject public_node (node_submit_refs public_node)
      ]

  unfoldable pub route_subject : Option SemanticNode → Raised SubmitRouteOutcome
  unfolding route_public unique_public_node
  route_subject none =
      raise_failure (failure (text "submit_route_unresolved_subject") (some command.ref) none)
  route_subject (some subject) = route_public subject (unique_public_node screen subject.ref)

  -- From the tests of the basis on.
  unfoldable pub route_on : NodeHandle → Raised SubmitRouteOutcome
  unfolding route_subject node_for_raw_rid compiled_screen_nodes
  route_on h =
      if not (text_eq screen.screen_id compiled.screen_id)
      then raise_failure (failure (text "submit_route_basis_mismatch") (some command.ref) none)
      else if not (nat_eq h.snapshot_id snapshot.snapshot_id)
      then raise_failure
          (failure (text "submit_route_stale_subject_handle") (some command.ref) none)
      else route_subject (node_for_raw_rid h.rid (compiled_screen_nodes compiled))

unfoldable pub route_basis :
    RefBoundActionCommand
    → ActionTargetEvidence
    → Option PublicScreen
    → Option CompiledScreen
    → Option RawSnapshot
    → Option NodeHandle
    → Raised SubmitRouteOutcome
unfolding route_on
route_basis command evidence (some screen) (some compiled) (some snapshot) (some h) =
    route_on command evidence screen compiled snapshot h
route_basis command evidence _ _ _ _ =
    raise_failure (failure (text "submit_route_unresolved_subject") (some command.ref) none)

-- `resolve_submit_route`
unfoldable pub resolve_submit_route :
    Runtime
    → RefBoundActionCommand
    → Option NodeHandle
    → ActionTargetEvidence
    → Raised SubmitRouteOutcome
unfolding route_basis current_public_screen current_compiled_screen
resolve_submit_route r command h evidence =
    route_basis command evidence (current_public_screen r) (current_compiled_screen r)
      r.latest_snapshot h
