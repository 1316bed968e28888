-- ===== src/Actions/Outcomes.antt =====
-- What the confirmations of actions/type_confirmation.py and actions/focus_confirmation.py say of the
-- refreshed snapshot, when they return and when they raise.
use androidctl.Prelude.{
  Text, true, false, ◌&&◌, Option, none, some, List, [], ◌∷◌, All, Among, ◌≡◌, ◌⊎◌, inl, inr, refl,
  arith, by_if, text_eq→eq,
}
use androidctl.TextEquivalence.{Unicode, canonical_text_key}
use androidctl.Models.Errors.{
  type_not_confirmed, target_not_actionable, Raised, returned, daemon_error, runtime_error,
  value_error,
}
use androidctl.Models.Snapshots.{RawSnapshot}
use androidctl.Runtime.Models.{Runtime}
use androidctl.Actions.Confirm.{
  ResolvedTarget, target_handle_of, TypeConfirmationContext, Strategy, TypeConfirmationCandidate,
  observed_input_value, type_confirmation_candidates, matches_typed_value, first_typed, type_error,
  validate_type_confirmation,
}
use androidctl.Actions.Focus.{
  FocusConfirmationContext, FocusConfirmationOutcome, focus_confirmation_candidates,
  first_valid_focus_candidate, with_strategy, was_focused, confirm_focus,
  validate_focus_confirmation,
}
use androidctl.Actions.Confirmed.{type_candidates-Nodes, focus_candidates-Nodes}

module _ (u : Unicode) (r : Runtime) (snapshot : RawSnapshot) where
  module _ (typed : Text) where
    -- The node's text is the typed one, up to its canonical form.
    abbrev Shows : TypeConfirmationCandidate → Type 0
    Shows c =
        canonical_text_key u (some (observed_input_value c.node))
        ≡ canonical_text_key u (some typed)

    abbrev FirstTyped : List TypeConfirmationCandidate → Option TypeConfirmationCandidate → Type 0
    FirstTyped cs none =
        All (λ c. matches_typed_value u typed (observed_input_value c.node) ≡ false) cs
    FirstTyped cs (some c) = Among snapshot.nodes c.node × Shows c

    first_typed-FirstTyped :
        (cs : List TypeConfirmationCandidate)
        → All (λ c. Among snapshot.nodes c.node) cs
        → FirstTyped cs (first_typed u typed cs)
    unfolding first_typed
    first_typed-FirstTyped [] h = tt
    first_typed-FirstTyped (c ∷ cs) h =
        by_if (FirstTyped (c ∷ cs)) (matches_typed_value u typed (observed_input_value c.node)) _ _
          (λ same. (h.0, text_eq→eq _ _ same))
          (λ other.
            (elim (first_typed u typed cs) as (λ o. FirstTyped cs o → FirstTyped (c ∷ cs) o) [
              | none ↦ λ k. (other, k)
              | some d ↦ λ k. k
            ])
              (first_typed-FirstTyped cs h.1))

    -- A confirmation's end, by whether it returns.
    abbrev pub TypeOutcome :
        TypeConfirmationContext → Option ResolvedTarget → Raised TypeConfirmationCandidate → Type 0
    TypeOutcome context target (returned c) = Among snapshot.nodes c.node × Shows c
    TypeOutcome context target (daemon_error e) =
        (e.code ≡ type_not_confirmed)
        × (e.retryable ≡ true)
        × All (λ c. matches_typed_value u typed (observed_input_value c.node) ≡ false)
            (type_confirmation_candidates u r snapshot context (target_handle_of target))
    TypeOutcome context target runtime_error = ⊥
    TypeOutcome context target value_error = ⊥

    -- A confirmed text is that of a node of the snapshot, up to its canonical form; where the
    -- confirmation raises, with a retryable TYPE_NOT_CONFIRMED, no candidate shows the text.
    pub validate_type-TypeOutcome :
        (context : TypeConfirmationContext) (target : Option ResolvedTarget)
        → TypeOutcome context target (validate_type_confirmation u r typed snapshot context target)
    unfolding validate_type_confirmation
    validate_type-TypeOutcome context target =
        let cs = type_confirmation_candidates u r snapshot context (target_handle_of target) in
        (elim (first_typed u typed cs)
            as (λ o.
              FirstTyped cs o
              → TypeOutcome context target (elim o [
                | some c ↦ returned c
                | none ↦ daemon_error (type_error u typed context.ref cs)
              ])) [ none ↦ λ k. (refl, refl, k) | some c ↦ λ k. k ])
          (first_typed-FirstTyped cs
            (type_candidates-Nodes u snapshot r context (target_handle_of target)).0)

  -- Focused inputs of the snapshot.
  abbrev Reached : TypeConfirmationCandidate → Type 0
  Reached c = Among snapshot.nodes c.node × (c.node.focused ≡ true) × (c.node.editable ≡ true)

  abbrev FirstFocused : List TypeConfirmationCandidate → Option TypeConfirmationCandidate → Type 0
  FirstFocused cs none = All (λ c. (c.node.focused && c.node.editable) ≡ false) cs
  FirstFocused cs (some c) = Reached c

  first_valid-FirstFocused :
      (cs : List TypeConfirmationCandidate)
      → All (λ c. Among snapshot.nodes c.node) cs
      → FirstFocused cs (first_valid_focus_candidate cs)
  unfolding first_valid_focus_candidate
  first_valid-FirstFocused [] h = tt
  first_valid-FirstFocused (c ∷ cs) h =
      by_if (FirstFocused (c ∷ cs)) (c.node.focused && c.node.editable) _ _
        (λ good. (h.0, ground arith, ground arith))
        (λ bad.
          (elim (first_valid_focus_candidate cs)
              as (λ o. FirstFocused cs o → FirstFocused (c ∷ cs) o) [
                | none ↦ λ k. (bad, k)
                | some d ↦ λ k. k
              ])
            (first_valid-FirstFocused cs h.1))

  module _ (previous : Option RawSnapshot) (context : FocusConfirmationContext) where
    -- The candidate of this strategy before the refresh, if there was one.
    abbrev before : Strategy → Option TypeConfirmationCandidate
    before strategy = with_strategy strategy (focus_confirmation_candidates u r previous context)

    abbrev pub FocusOutcome : Raised FocusConfirmationOutcome → Type 0
    FocusOutcome (returned o) =
        Among snapshot.nodes o.node
        × (o.node.focused ≡ true)
        × (o.node.editable ≡ true)
        × (o.target_handle ≡ record { snapshot_id = snapshot.snapshot_id; rid = o.node.rid })
        × (was_focused (before o.strategy) ≡ false)
    FocusOutcome (daemon_error e) =
        (e.code ≡ target_not_actionable)
        × (e.retryable ≡ true)
        × (All (λ c. (c.node.focused && c.node.editable) ≡ false)
              (focus_confirmation_candidates u r (some snapshot) context)
            ⊎ ((s : Strategy) × (was_focused (before s) ≡ true)))
    FocusOutcome runtime_error = ⊥
    FocusOutcome value_error = ⊥

    confirm_focus-FocusOutcome :
        (o : Option TypeConfirmationCandidate)
        → FirstFocused (focus_confirmation_candidates u r (some snapshot) context) o
        → FocusOutcome
            (confirm_focus snapshot (focus_confirmation_candidates u r previous context) o)
    unfolding confirm_focus
    confirm_focus-FocusOutcome none h = (refl, refl, inl h)
    confirm_focus-FocusOutcome (some c) h =
        by_if FocusOutcome (was_focused (before c.strategy)) _ _
          (λ was. (refl, refl, inr (c.strategy, was))) (λ new. (h.0, h.1, h.2, refl, new))

    -- A confirmed focus is on a focused input of the snapshot, under its id in that snapshot, that was
    -- not focused before by the same strategy. Where the confirmation raises, with a retryable
    -- TARGET_NOT_ACTIONABLE, no candidate is a focused input, or the previous one was focused.
    pub validate_focus-FocusOutcome :
        FocusOutcome (validate_focus_confirmation u r previous snapshot context)
    unfolding validate_focus_confirmation focus_confirmation_candidates
    validate_focus-FocusOutcome =
        confirm_focus-FocusOutcome
          (first_valid_focus_candidate (focus_confirmation_candidates u r (some snapshot) context))
          (first_valid-FirstFocused (focus_confirmation_candidates u r (some snapshot) context)
            (focus_candidates-Nodes u snapshot r context).0)
