-- ===== src/Actions/Routed.antt =====
-- Where a submit is sent to, and why it is sent nowhere (`resolve_submit_route` of
-- actions/submit_routing.py).
use androidctl.Prelude.{
  Text, text, text_eq, text_in, nat_eq, nat_eq_iff, opt_text_eq, opt_text_eq_iff, true, false, ◌||◌,
  not, is_some, Option, none, some, List, [], ◌∷◌, Among, ◌≡◌, ◌⊎◌, inl, refl, ◌∙◌, arith, by_if,
  if◌then◌else◌,
}
use androidctl.Models.Errors.{
  target_blocked, target_not_actionable, DaemonError, Raised, returned, daemon_error, runtime_error,
  value_error,
}
use androidctl.Models.Snapshots.{RawSnapshot}
use androidctl.Models.Semantic.{SemanticNode, CompiledScreen}
use androidctl.Models.Public.{
  PublicNode, PublicScreen, node_ref, node_role, node_actions, node_submit_refs,
}
use androidctl.Models.Refs.{NodeHandle}
use androidctl.Models.Evidence.{ActionTargetEvidence}
use androidctl.Models.Commands.{RefBoundActionCommand}
use androidctl.Runtime.Models.{Runtime}
use androidctl.Runtime.Screen.{current_public_screen, current_compiled_screen}
use androidctl.Refs.Located.{OnSome}
use androidctl.Waits.Signature.{compiled_screen_nodes}
use androidctl.Semantics.Groups.{group_text}
use androidctl.Actions.Submit.{RouteKind, direct, attributed}
use androidctl.Actions.FocusedInput.{public_focused_input_ref}
use androidctl.Actions.RouteGuards.{
  SubmitRouteFailure, to_error, unique_public_node, unique_semantic_node_for_ref, node_for_raw_rid,
  ensure_subject_admissible, ensure_unblocked, failure,
}
use androidctl.Actions.Route.{
  SubmitRouteOutcome, handle_in, raise_failure, outcome, route_to, route_found, route_of,
  route_public, route_subject, route_on, route_basis, resolve_submit_route,
}
use androidctl.Actions.RouteChecks.{
  node_for_raw_rid-Among, unique-ref, Honest, Checked, Admitted, unblocked-Checked,
  admissible-Admitted,
}

-- The node is not blocked by another group.
abbrev pub Unblocked : PublicScreen → SemanticNode → Type 0
Unblocked screen n = OnSome (λ b. n.group ≡ group_text b) screen.surface.blocking_group

module _ (screen : PublicScreen) (compiled : CompiledScreen) (snapshot : RawSnapshot) where
  -- What is sent for a subject with its public node.
  abbrev pub Dispatched : SemanticNode → PublicNode → SubmitRouteOutcome → RouteKind → Type 0
  Dispatched subject p o direct =
      (o.dispatched_ref ≡ subject.ref)
      × (o.dispatched_handle ≡ o.subject_handle)
      × (text_in (text "submit") (node_actions p) ≡ true)
  Dispatched subject p o attributed =
      (node_submit_refs p ≡ o.dispatched_ref ∷ [])
      × (q : PublicNode) × (d : SemanticNode) × (unique_public_node screen o.dispatched_ref
          ≡ some q)
      × (unique_semantic_node_for_ref compiled o.dispatched_ref ≡ some d)
      × (o.dispatched_handle ≡ handle_in snapshot d)
      × (text_in (text "tap") (node_actions q) ≡ true)
      × (text_in (text "tap") d.actions ≡ true)
      × Unblocked screen d

  abbrev pub Routed : NodeHandle → SubmitRouteOutcome → Type 0
  Routed h o =
      (subject : SemanticNode) × (p : PublicNode) × Among (compiled_screen_nodes compiled) subject
      × (o.subject_handle ≡ h)
      × (o.subject_ref ≡ subject.ref)
      × (handle_in snapshot subject ≡ h)
      × (unique_public_node screen subject.ref ≡ some p)
      × (node_role p ≡ text "input")
      × (public_focused_input_ref screen ≡ some subject.ref)
      × Dispatched subject p o o.route

  abbrev pub Failed : DaemonError → Type 0
  Failed e =
      (e.retryable ≡ false)
      × ((e.code ≡ target_not_actionable)
          ⊎ ((e.code ≡ target_blocked) × (is_some screen.surface.blocking_group ≡ true)))

  abbrev pub RouteEnd : NodeHandle → Raised SubmitRouteOutcome → Type 0
  RouteEnd h (returned o) = Routed h o
  RouteEnd h (daemon_error e) = Failed e
  RouteEnd h runtime_error = ⊥
  RouteEnd h value_error = ⊥

  failed : (f : SubmitRouteFailure) → Honest screen.surface.blocking_group f → Failed (to_error f)
  failed f h = (refl, ground (arith, h))

  module _ (command : RefBoundActionCommand) (evidence : ActionTargetEvidence) (h : NodeHandle)
      (subject : SemanticNode) (here : Among (compiled_screen_nodes compiled) subject)
      (same : handle_in snapshot subject ≡ h) where
    abbrev End : Raised SubmitRouteOutcome → Type 0
    End = RouteEnd h

    module _ (p : PublicNode) (unique : unique_public_node screen subject.ref ≡ some p)
        (input : node_role p ≡ text "input")
        (focused : public_focused_input_ref screen ≡ some subject.ref) where
      to-End :
          (ref : Text) (q : PublicNode) (d : SemanticNode)
          → node_submit_refs p ≡ ref ∷ []
          → unique_public_node screen ref ≡ some q
          → unique_semantic_node_for_ref compiled ref ≡ some d
          → End (route_to command evidence screen compiled snapshot subject ref q d)
      unfolding route_to
      to-End ref q d refs eq ed =
          (elim (ensure_unblocked screen d ref)
              as (λ o.
                Checked screen.surface.blocking_group d o
                → End (elim o [
                  | some f ↦ raise_failure f
                  | none ↦
                      if not (text_in (text "tap") (node_actions q))
                        || not (text_in (text "tap") d.actions)
                      then raise_failure (
                          failure (text "submit_route_target_not_tap_capable") (some ref)
                            (some (text "tap")))
                      else returned (
                          outcome command evidence screen compiled snapshot attributed subject ref
                            d)
                ])) [
                  | some f ↦ λ k. failed f k
                  | none ↦ λ k.
                      by_if End
                        (not (text_in (text "tap") (node_actions q))
                          || not (text_in (text "tap") d.actions))
                        _ _ (λ _. (refl, inl refl))
                        (λ taps. (
                          subject,
                          p,
                          here,
                          same,
                          refl,
                          same,
                          unique,
                          input,
                          focused,
                          (refs, q, d, eq, ed, refl, ground arith, ground arith, k),
                        ))
                ])
            (unblocked-Checked screen compiled d ref)

      found-End :
          (ref : Text) (q : Option PublicNode) (d : Option SemanticNode)
          → node_submit_refs p ≡ ref ∷ []
          → unique_public_node screen ref ≡ q
          → unique_semantic_node_for_ref compiled ref ≡ d
          → End (route_found command evidence screen compiled snapshot subject ref q d)
      found-End ref (some q) (some d) refs eq ed = to-End ref q d refs eq ed
      found-End ref (some q) none refs eq ed = (refl, inl refl)
      found-End ref none d refs eq ed = (refl, inl refl)

      of-End :
          (refs : List Text)
          → node_submit_refs p ≡ refs
          → End (route_of command evidence screen compiled snapshot subject p refs)
      unfolding route_of
      of-End [] e =
          by_if End (not (text_in (text "submit") (node_actions p))) _ _ (λ _. (refl, inl refl))
            (λ submits. (
              subject,
              p,
              here,
              same,
              refl,
              same,
              unique,
              input,
              focused,
              (refl, refl, ground arith),
            ))
      of-End (ref ∷ []) e =
          found-End ref (unique_public_node screen ref) (unique_semantic_node_for_ref compiled ref)
            e refl refl
      of-End (a ∷ b ∷ rest) e = (refl, inl refl)

    public-End :
        (o : Option PublicNode)
        → unique_public_node screen subject.ref ≡ o
        → OnSome (λ p. opt_text_eq (node_ref p) (some subject.ref) ≡ true) o
        → End (route_public command evidence screen compiled snapshot subject o)
    unfolding route_public
    public-End none e k = (refl, inl refl)
    public-End (some p) e k =
        (elim (ensure_subject_admissible screen compiled subject p)
            as (λ o.
              Admitted screen p o
              → End (elim o [
                | some f ↦ raise_failure f
                | none ↦
                    route_of command evidence screen compiled snapshot subject p
                      (node_submit_refs p)
              ])) [
                | some f ↦ λ h. failed f h
                | none ↦ λ h.
                    of-End p e h.0 (h.1 ∙ (opt_text_eq_iff (node_ref p) (some subject.ref)).0 k)
                      (node_submit_refs p) refl
              ])
          (admissible-Admitted screen compiled subject p)

  module _ (command : RefBoundActionCommand) (evidence : ActionTargetEvidence)
      (h : NodeHandle) where
    subject-End :
        (o : Option SemanticNode)
        → OnSome (λ n. Among (compiled_screen_nodes compiled) n × (n.raw_rid ≡ h.rid)) o
        → nat_eq h.snapshot_id snapshot.snapshot_id ≡ true
        → RouteEnd h (route_subject command evidence screen compiled snapshot o)
    unfolding route_subject
    subject-End none k fresh = (refl, inl refl)
    subject-End (some n) k fresh =
        public-End command evidence h n k.0
          (ground (arith, k.1, nat_eq_iff h.snapshot_id snapshot.snapshot_id))
          (unique_public_node screen n.ref) refl (unique-ref screen n.ref)

    on-End : RouteEnd h (route_on command evidence screen compiled snapshot h)
    unfolding route_on
    on-End =
        by_if (RouteEnd h) (not (text_eq screen.screen_id compiled.screen_id)) _ _
          (λ _. (refl, inl refl))
          (λ _.
            by_if (RouteEnd h) (not (nat_eq h.snapshot_id snapshot.snapshot_id)) _ _
              (λ _. (refl, inl refl))
              (λ fresh.
                subject-End (node_for_raw_rid h.rid (compiled_screen_nodes compiled))
                  (node_for_raw_rid-Among h.rid (compiled_screen_nodes compiled)) (ground arith)))

-- What a route says of the screens and the snapshot of the session, or why there is none.
abbrev pub RouteOutcome :
    Option PublicScreen
    → Option CompiledScreen
    → Option RawSnapshot
    → Option NodeHandle
    → Raised SubmitRouteOutcome
    → Type 0
RouteOutcome (some screen) (some compiled) (some snapshot) (some h) result =
    RouteEnd screen compiled snapshot h result
RouteOutcome screen compiled snapshot h (daemon_error e) =
    (e.retryable ≡ false) × (e.code ≡ target_not_actionable)
RouteOutcome screen compiled snapshot h _ = ⊥

basis-RouteOutcome :
    (command : RefBoundActionCommand) (evidence : ActionTargetEvidence)
    (screen : Option PublicScreen) (compiled : Option CompiledScreen)
    (snapshot : Option RawSnapshot) (h : Option NodeHandle)
    → RouteOutcome screen compiled snapshot h
        (route_basis command evidence screen compiled snapshot h)
unfolding route_basis
basis-RouteOutcome command evidence (some s) (some c) (some n) (some h) =
    on-End s c n command evidence h
basis-RouteOutcome command evidence (some s) (some c) (some n) none = (refl, refl)
basis-RouteOutcome command evidence (some s) (some c) none h = (refl, refl)
basis-RouteOutcome command evidence (some s) none n h = (refl, refl)
basis-RouteOutcome command evidence none c n h = (refl, refl)

-- A submit is routed only for a handle of the latest snapshot, whose node has a ref that one node of
-- the public screen has, an input with the focus. It goes to that node itself, which offers the
-- submit, or to the only node that it is attributed to, under a ref that is unique in both screens, to
-- be tapped, and not blocked by another group. Where it raises, the error is not retryable, and says
-- that the target is blocked only where a group blocks the screen.
pub resolve_submit_route-RouteOutcome :
    (r : Runtime) (command : RefBoundActionCommand) (h : Option NodeHandle)
    (evidence : ActionTargetEvidence)
    → RouteOutcome
        (current_public_screen r)
        (current_compiled_screen r)
        r.latest_snapshot
        h
        (resolve_submit_route r command h evidence)
unfolding resolve_submit_route
resolve_submit_route-RouteOutcome r command h evidence =
    basis-RouteOutcome command evidence (current_public_screen r) (current_compiled_screen r)
      r.latest_snapshot h
