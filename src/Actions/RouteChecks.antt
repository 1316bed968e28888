-- ===== src/Actions/RouteChecks.antt =====
-- What the checks of actions/submit_routing.py let pass.
use androidctl.Prelude.{
  Text, text, text_eq, text_eq→eq, opt_text_eq, opt_text_eq_iff, true, false, ◌||◌, not, is_some,
  Option, none, some, List, [], ◌∷◌, keep_if-kept, All, Among, Among-later, ◌≡◌, ◌⊎◌, inl, inr,
  refl, arith, by_if, if◌then◌else◌,
}
use androidctl.Models.Semantic.{SemanticNode, CompiledScreen, GroupName}
use androidctl.Models.Public.{PublicNode, PublicScreen, node_ref, node_role, nodes_of_groups}
use androidctl.Refs.Located.{OnSome}
use androidctl.Semantics.Groups.{group_text}
use androidctl.Actions.FocusedInput.{
  public_focused_input_ref, public_node_is_focused_input, keyboard_blocker_allows_submit_subject,
}
use androidctl.Actions.RouteGuards.{
  SubmitRouteFailure, only, unique_public_node, node_for_raw_rid, ensure_subject_unblocked,
  ensure_subject_admissible, ensure_unblocked, failure, blocked_by,
}

pub node_for_raw_rid-Among :
    (rid : Text) (ns : List SemanticNode)
    → OnSome (λ n. Among ns n × (n.raw_rid ≡ rid)) (node_for_raw_rid rid ns)
unfolding node_for_raw_rid
node_for_raw_rid-Among rid [] = tt
node_for_raw_rid-Among rid (n ∷ ns) =
    by_if (OnSome (λ m. Among (n ∷ ns) m × (m.raw_rid ≡ rid))) (text_eq n.raw_rid rid) _ _
      (λ same. ((0, refl), text_eq→eq n.raw_rid rid same))
      (λ _.
        elim (node_for_raw_rid rid ns)
            as (λ o.
              OnSome (λ m. Among ns m × (m.raw_rid ≡ rid)) o
              → OnSome (λ m. Among (n ∷ ns) m × (m.raw_rid ≡ rid)) o) [
                | none ↦ λ h. tt
                | some m ↦ λ h. (Among-later n ns m h.0, h.1)
              ]
          (node_for_raw_rid-Among rid ns))

only-All {ℓ κ} : {A : Type ℓ} (P : A → Type κ) (xs : List A) → All P xs → OnSome P (only xs)
only-All P [] h = tt
only-All P (x ∷ []) h = h.0
only-All P (x ∷ y ∷ rest) h = tt

-- The ref of a unique public node.
pub unique-ref :
    (s : PublicScreen) (ref : Text)
    → OnSome (λ p. opt_text_eq (node_ref p) (some ref) ≡ true) (unique_public_node s ref)
unfolding unique_public_node
unique-ref s ref = only-All _ _ (keep_if-kept _ (nodes_of_groups s.groups))

-- A failure of the blocked kind has a group that blocks.
abbrev pub Honest : Option GroupName → SubmitRouteFailure → Type 0
Honest blocking f = (f.is_blocked ≡ false) ⊎ (is_some blocking ≡ true)

abbrev pub Checked : Option GroupName → SemanticNode → Option SubmitRouteFailure → Type 0
Checked blocking n none = OnSome (λ b. n.group ≡ group_text b) blocking
Checked blocking n (some f) = Honest blocking f

abbrev pub Admitted : PublicScreen → PublicNode → Option SubmitRouteFailure → Type 0
Admitted screen p none =
    (node_role p ≡ text "input") × (public_focused_input_ref screen ≡ node_ref p)
Admitted screen p (some f) = Honest screen.surface.blocking_group f

module _ (screen : PublicScreen) (compiled : CompiledScreen) where
  pub unblocked-Checked :
      (n : SemanticNode) (ref : Text)
      → Checked screen.surface.blocking_group n (ensure_unblocked screen n ref)
  unfolding ensure_unblocked
  unblocked-Checked n ref =
      elim screen.surface.blocking_group
        as (λ o. Checked o n (elim o [
          | none ↦ none
          | some b ↦ if text_eq n.group (group_text b) then none else some (blocked_by b (some ref))
        ])) [
          | none ↦ tt
          | some b ↦
              by_if (Checked (some b) n) (text_eq n.group (group_text b)) _ _
                (λ same. text_eq→eq n.group (group_text b) same) (λ _. inr refl)
        ]

  subject-Honest :
      (n : SemanticNode) (p : PublicNode)
      → OnSome (Honest screen.surface.blocking_group) (ensure_subject_unblocked screen compiled n p)
  unfolding ensure_subject_unblocked
  subject-Honest n p =
      elim screen.surface.blocking_group
        as (λ o. OnSome (Honest o) (elim o [
          | none ↦ none
          | some b ↦
              if text_eq n.group (group_text b)
                || keyboard_blocker_allows_submit_subject b screen compiled p n
              then none
              else some (blocked_by b (node_ref p))
        ])) [
          | none ↦ tt
          | some b ↦
              by_if (OnSome (Honest (some b)))
                (text_eq n.group (group_text b)
                  || keyboard_blocker_allows_submit_subject b screen compiled p n)
                _ _ (λ _. tt) (λ _. inr refl)
        ]

  focused-ref :
      (p : PublicNode)
      → public_node_is_focused_input screen p ≡ true
      → public_focused_input_ref screen ≡ node_ref p
  focused-ref p h =
      (opt_text_eq_iff (public_focused_input_ref screen) (node_ref p)).0 (ground arith)

  pub admissible-Admitted :
      (n : SemanticNode) (p : PublicNode)
      → Admitted screen p (ensure_subject_admissible screen compiled n p)
  unfolding ensure_subject_admissible
  admissible-Admitted n p =
      (elim (ensure_subject_unblocked screen compiled n p)
          as (λ o.
            OnSome (Honest screen.surface.blocking_group) o
            → Admitted screen p (elim o [
              | some f ↦ some f
              | none ↦
                  if not (text_eq (node_role p) (text "input"))
                    || not (text_eq n.role (text "input"))
                  then some (failure (text "not_input_capable") (node_ref p) (some (text "submit")))
                  else if not (public_node_is_focused_input screen p)
                  then some (record (failure (text "focus_mismatch") (node_ref p) none) {
                    focused_input_ref = public_focused_input_ref screen;
                  })
                  else none
            ])) [
              | some f ↦ λ h. h
              | none ↦ λ h.
                  by_if (Admitted screen p)
                    (not (text_eq (node_role p) (text "input"))
                      || not (text_eq n.role (text "input")))
                    _ _ (λ _. inl refl)
                    (λ input.
                      by_if (Admitted screen p) (not (public_node_is_focused_input screen p)) _ _
                        (λ _. inl refl)
                        (λ focused. (
                          text_eq→eq (node_role p) (text "input") (ground arith),
                          focused-ref p (ground arith),
                        )))
            ])
        (subject-Honest n p)
