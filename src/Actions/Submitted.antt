-- ===== src/Actions/Submitted.antt =====
-- What the confirmation of actions/submit_confirmation.py says of a submit.
use androidctl.Prelude.{
  Text, text_eq, true, false, ◌&&◌, ◌||◌, not, Option, none, some, List, [], ◌∷◌, All, Among, ◌≡◌,
  ◌≢◌, ◌⊎◌, inl, inr, refl, sym, subst, arith, by_if,
}
use androidctl.TextEquivalence.{Unicode}
use androidctl.Models.Errors.{
  submit_not_confirmed, Raised, returned, daemon_error, runtime_error, value_error,
}
use androidctl.Models.Snapshots.{RawNode, RawSnapshot}
use androidctl.Models.Public.{PublicScreen}
use androidctl.Models.Refs.{NodeHandle}
use androidctl.Runtime.Models.{Runtime}
use androidctl.Refs.Located.{OnSome}
use androidctl.Actions.Confirm.{node_for_rid, snapshot_node_for_handle}
use androidctl.Actions.Confirmed.{for_handle-Among, reused-Among, rematched-Among}
use androidctl.Actions.Structure.{structural_groups, submit_public_change_is_attributable}
use androidctl.Actions.StructureEquality.{groups_eq_iff}
use androidctl.Actions.Submit.{
  ActionStatus, is_done, RouteKind, direct, attributed, is_attributed, SubmitConfirmationContext,
  SubmitStatus, same_target, target_gone, public_change, unconfirmed, SubmitConfirmationOutcome,
  sent_elsewhere, as_type_context, first_node, has_left, node_by_context, submit_confirmation_node,
  confirm_node, confirm_submit, validate_submit_confirmation,
}

-- Whether the structure of the screen has changed since the previous one.
abbrev pub Changed : Option PublicScreen → PublicScreen → Type 0
Changed none s = ⊥
Changed (some p) s = structural_groups p ≢ structural_groups s

abbrev pub Unchanged : Option PublicScreen → PublicScreen → Type 0
Unchanged previous s = OnSome (λ p. structural_groups p ≡ structural_groups s) previous

attributable-Changed :
    (previous : Option PublicScreen) (s : PublicScreen)
    → submit_public_change_is_attributable previous s ≡ true
    → Changed previous s
unfolding submit_public_change_is_attributable
attributable-Changed none s h = cc
attributable-Changed (some p) s h =
    λ e. ground (arith, (groups_eq_iff (structural_groups p) (structural_groups s)).1 e)

unattributable-Unchanged :
    (previous : Option PublicScreen) (s : PublicScreen)
    → submit_public_change_is_attributable previous s ≡ false
    → Unchanged previous s
unfolding submit_public_change_is_attributable
unattributable-Unchanged none s h = tt
unattributable-Unchanged (some p) s h =
    (groups_eq_iff (structural_groups p) (structural_groups s)).0 (ground arith)

gone :
    (rid : Text) (ns : List RawNode)
    → node_for_rid rid ns ≡ none
    → All (λ n. text_eq n.rid rid ≡ false) ns
unfolding node_for_rid
gone rid [] h = tt
gone rid (n ∷ ns) h = (ground arith, gone rid ns (ground arith))

is_attributed-eq : (r : RouteKind) → is_attributed r ≡ true → r ≡ attributed
is_attributed-eq direct h = cc
is_attributed-eq attributed h = refl

unattributed_direct : (r : RouteKind) → is_attributed r ≡ false → r ≡ direct
unattributed_direct direct h = refl
unattributed_direct attributed h = cc

module _ (u : Unicode) (snapshot : RawSnapshot) where
  -- The node that a confirmation has found, or that the snapshot has none of the handle's id.
  abbrev Sought : NodeHandle → Option RawNode → Type 0
  Sought h none = All (λ n. text_eq n.rid h.rid ≡ false) snapshot.nodes
  Sought h (some n) = Among snapshot.nodes n

  first_node-OnSome :
      (a b : Option RawNode)
      → OnSome (Among snapshot.nodes) a
      → OnSome (Among snapshot.nodes) b
      → OnSome (Among snapshot.nodes) (first_node a b)
  first_node-OnSome (some n) b h k = h
  first_node-OnSome none b h k = k

  node_by_context-OnSome :
      (session : Option Runtime) (context : Option SubmitConfirmationContext) (h : NodeHandle)
      → OnSome (Among snapshot.nodes) (node_by_context u session snapshot context h)
  unfolding node_by_context
  node_by_context-OnSome none context h = tt
  node_by_context-OnSome (some r) none h = tt
  node_by_context-OnSome (some r) (some c) h =
      by_if (OnSome (Among snapshot.nodes)) (sent_elsewhere c.request_handle h) _ _ (λ _. tt)
        (λ _.
          first_node-OnSome _ _ (reused-Among u snapshot r (as_type_context c))
            (rematched-Among u snapshot r (as_type_context c)))

  first_node-Sought :
      (h : NodeHandle) (a b : Option RawNode)
      → (a ≡ none → All (λ n. text_eq n.rid h.rid ≡ false) snapshot.nodes)
      → OnSome (Among snapshot.nodes) a
      → OnSome (Among snapshot.nodes) b
      → Sought h (first_node a b)
  first_node-Sought h (some n) b missing k l = k
  first_node-Sought h none (some n) missing k l = l
  first_node-Sought h none none missing k l = missing refl

  submit_node-Sought :
      (session : Option Runtime) (context : Option SubmitConfirmationContext) (h : NodeHandle)
      → Sought h (submit_confirmation_node u session snapshot context h)
  unfolding submit_confirmation_node snapshot_node_for_handle
  submit_node-Sought session context h =
      first_node-Sought h _ _ (gone h.rid snapshot.nodes) (for_handle-Among u snapshot (some h))
        (node_by_context-OnSome session context h)

  module _ (previous : Option RawSnapshot) (previous_screen : Option PublicScreen)
      (screen : PublicScreen) (route : RouteKind) where
    -- What each status says of the confirmed node.
    abbrev pub ByStatus : NodeHandle → SubmitStatus → Option RawNode → Type 0
    ByStatus h unconfirmed found = (found ≡ none) × (has_left previous snapshot ≡ true)
    ByStatus h target_gone found =
        (found ≡ none)
        × (has_left previous snapshot ≡ false)
        × All (λ n. text_eq n.rid h.rid ≡ false) snapshot.nodes
    ByStatus h public_change none = ⊥
    ByStatus h public_change (some n) =
        Among snapshot.nodes n
        × (has_left previous snapshot ≡ false)
        × Changed previous_screen screen
    ByStatus h same_target none = ⊥
    ByStatus h same_target (some n) =
        Among snapshot.nodes n
        × (has_left previous snapshot ≡ false)
        × Unchanged previous_screen screen
        × ((n.focused && n.editable) ≡ false)
        × (route ≡ direct)

    -- Why a submit that the device has done is refused.
    abbrev pub Refused : Type 0
    Refused =
        (n : RawNode) × Among snapshot.nodes n
        × Unchanged previous_screen screen
        × (((n.focused && n.editable) ≡ true) ⊎ (route ≡ attributed))

    abbrev Confirmation : NodeHandle → Raised SubmitConfirmationOutcome → Type 0
    Confirmation h (returned o) = (o.target_handle ≡ h) × ByStatus h o.status o.node
    Confirmation h (daemon_error e) =
        (e.code ≡ submit_not_confirmed) × (e.retryable ≡ true) × Refused
    Confirmation h runtime_error = ⊥
    Confirmation h value_error = ⊥

    refused_at :
        (n : RawNode)
        → Among snapshot.nodes n
        → submit_public_change_is_attributable previous_screen screen ≡ false
        → ((n.focused && n.editable) ≡ true) ⊎ (route ≡ attributed)
        → Refused
    refused_at n k same why = (n, k, unattributable-Unchanged previous_screen screen same, why)

    confirm_node-Confirmation :
        (h : NodeHandle) (found : Option RawNode)
        → Sought h found
        → has_left previous snapshot ≡ false
        → Confirmation h (
            confirm_node route h
              (submit_public_change_is_attributable previous_screen screen)
              found)
    unfolding confirm_node
    confirm_node-Confirmation h none k here = (refl, (refl, here, k))
    confirm_node-Confirmation h (some n) k here =
        by_if (Confirmation h) (submit_public_change_is_attributable previous_screen screen) _ _
          (λ changed. (refl, (k, here, attributable-Changed previous_screen screen changed)))
          (λ same.
            by_if (Confirmation h) (not n.focused || not n.editable) _ _
              (λ blurred.
                by_if (Confirmation h) (is_attributed route) _ _
                  (λ a. (refl, refl, refused_at n k same (inr (is_attributed-eq route a))))
                  (λ d. (
                    refl,
                    (
                      k,
                      here,
                      unattributable-Unchanged previous_screen screen same,
                      ground arith,
                      unattributed_direct route d,
                    ),
                  )))
              (λ kept. (refl, refl, refused_at n k same (inl (ground arith)))))

    confirm_submit-Confirmation :
        (session : Option Runtime) (context : Option SubmitConfirmationContext) (h : NodeHandle)
        → Confirmation h
            (confirm_submit u session route previous snapshot previous_screen screen context h)
    unfolding confirm_submit
    confirm_submit-Confirmation session context h =
        by_if (Confirmation h) (has_left previous snapshot) _ _ (λ left. (refl, (refl, left)))
          (λ here. confirm_node-Confirmation h _ (submit_node-Sought session context h) here)

    abbrev pub SubmitOutcome :
        ActionStatus → Option NodeHandle → Raised SubmitConfirmationOutcome → Type 0
    SubmitOutcome status target (returned o) =
        (target ≡ some o.target_handle)
        × (is_done status ≡ true)
        × ByStatus o.target_handle o.status o.node
    SubmitOutcome status target (daemon_error e) =
        (e.code ≡ submit_not_confirmed)
        × (e.retryable ≡ true)
        × ((target ≡ none) ⊎ (is_done status ≡ false) ⊎ Refused)
    SubmitOutcome status target runtime_error = ⊥
    SubmitOutcome status target value_error = ⊥

    -- A submit is confirmed only for a target, after the device has done it, with a node of the new
    -- snapshot. It says that the app was left; or that the snapshot has no node of the target's id;
    -- or that the structure of the screen has changed; or, on a direct route and with the structure
    -- unchanged, that the node is no longer a focused input. Where it raises, with a retryable
    -- SUBMIT_NOT_CONFIRMED, there is no target, or the device has not done the submit, or the
    -- structure is unchanged and a node of the snapshot is a focused input or the route attributed.
    pub validate_submit-SubmitOutcome :
        (session : Option Runtime) (context : Option SubmitConfirmationContext)
        (status : ActionStatus) (target : Option NodeHandle)
        → SubmitOutcome status target (
            validate_submit_confirmation u session route status previous snapshot previous_screen
              screen context target)
    unfolding validate_submit_confirmation
    validate_submit-SubmitOutcome session context status none = (refl, refl, inl refl)
    validate_submit-SubmitOutcome session context status (some h) =
        by_if (SubmitOutcome status (some h)) (is_done status) _ _
          (λ accepted.
            elim (confirm_submit u session route previous snapshot previous_screen screen context h)
                as (λ x. Confirmation h x → SubmitOutcome status (some h) x) [
                  | returned o ↦ λ k. (
                    ground arith,
                    accepted,
                    subst (λ x. ByStatus x o.status o.node) (sym k.0) k.1,
                  )
                  | daemon_error e ↦ λ k. (k.0, k.1, inr (inr k.2))
                  | runtime_error ↦ λ k. k
                  | value_error ↦ λ k. k
                ]
              (confirm_submit-Confirmation session context h))
          (λ refused. (refl, refl, inr (inl refused)))
