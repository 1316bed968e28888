-- ===== src/Actions/EvidenceOrder.antt =====
-- The evidence that actions/executor.py lists for an action target is in the order that the contract
-- accepts, after either source.
use androidctl.Prelude.{
  true, Option, none, some, List, [], ◌∷◌, ◌++◌, ◌≡◌, ◌⊎◌, inl, inr, refl, sym, subst,
}
use androidctl.Models.Evidence.{
  ActionTargetEvidence, live_ref, ref_repair, focus_confirmation, type_confirmation,
  submit_confirmation, validate_evidence,
}
use androidctl.Actions.Confirm.{
  Strategy, resolved_target, request_target, reused_ref, fingerprint_rematch,
}
use androidctl.Actions.Submit.{RouteKind, direct, attributed}
use androidctl.Actions.Route.{SubmitRouteOutcome}
use androidctl.Actions.ActionTarget.{
  attributed_evidence, confirmation_evidence, submit_confirmation_evidence,
}

-- The evidence that the node of a source ref has.
abbrev pub IsSource : ActionTargetEvidence → Type 0
IsSource e = (e ≡ live_ref) ⊎ (e ≡ ref_repair)

-- The evidence is accepted after either source.
by_source :
    (f : ActionTargetEvidence → List ActionTargetEvidence) (e : ActionTargetEvidence)
    → IsSource e
    → validate_evidence (f live_ref) ≡ true
    → validate_evidence (f ref_repair) ≡ true
    → validate_evidence (f e) ≡ true
by_source f e (inl h) a b = subst (λ x. validate_evidence (f x) ≡ true) (sym h) a
by_source f e (inr h) a b = subst (λ x. validate_evidence (f x) ≡ true) (sym h) b

pub focus_evidence-valid :
    (e : ActionTargetEvidence) (strategy : Option Strategy)
    → IsSource e
    → validate_evidence (confirmation_evidence e strategy focus_confirmation) ≡ true
unfolding validate_evidence
focus_evidence-valid e none h =
    by_source (λ x. confirmation_evidence x none focus_confirmation) e h refl refl
focus_evidence-valid e (some resolved_target) h =
    by_source (λ x. confirmation_evidence x (some resolved_target) focus_confirmation) e h refl refl
focus_evidence-valid e (some request_target) h =
    by_source (λ x. confirmation_evidence x (some request_target) focus_confirmation) e h refl refl
focus_evidence-valid e (some reused_ref) h =
    by_source (λ x. confirmation_evidence x (some reused_ref) focus_confirmation) e h refl refl
focus_evidence-valid e (some fingerprint_rematch) h =
    by_source (λ x. confirmation_evidence x (some fingerprint_rematch) focus_confirmation) e h refl
      refl

pub type_evidence-valid :
    (e : ActionTargetEvidence) (strategy : Option Strategy)
    → IsSource e
    → validate_evidence (confirmation_evidence e strategy type_confirmation) ≡ true
unfolding validate_evidence
type_evidence-valid e none h =
    by_source (λ x. confirmation_evidence x none type_confirmation) e h refl refl
type_evidence-valid e (some resolved_target) h =
    by_source (λ x. confirmation_evidence x (some resolved_target) type_confirmation) e h refl refl
type_evidence-valid e (some request_target) h =
    by_source (λ x. confirmation_evidence x (some request_target) type_confirmation) e h refl refl
type_evidence-valid e (some reused_ref) h =
    by_source (λ x. confirmation_evidence x (some reused_ref) type_confirmation) e h refl refl
type_evidence-valid e (some fingerprint_rematch) h =
    by_source (λ x. confirmation_evidence x (some fingerprint_rematch) type_confirmation) e h refl
      refl

-- The evidence of a submit by the kind of its route, and what follows it.
abbrev by_kind : RouteKind → ActionTargetEvidence → List ActionTargetEvidence
by_kind kind e = e ∷ (attributed_evidence kind ++ submit_confirmation ∷ [])

pub submit_evidence-valid :
    (more : List ActionTargetEvidence) (e : ActionTargetEvidence)
    (route : Option SubmitRouteOutcome)
    → IsSource e
    → validate_evidence (by_kind direct live_ref ++ more) ≡ true
    → validate_evidence (by_kind direct ref_repair ++ more) ≡ true
    → validate_evidence (by_kind attributed live_ref ++ more) ≡ true
    → validate_evidence (by_kind attributed ref_repair ++ more) ≡ true
    → validate_evidence (submit_confirmation_evidence e route ++ more) ≡ true
submit_evidence-valid more e none h a b c d = by_source (λ x. by_kind direct x ++ more) e h a b
submit_evidence-valid more e (some o) h a b c d =
    elim o.route as (λ kind. validate_evidence (by_kind kind e ++ more) ≡ true) [
      | direct ↦ by_source (λ x. by_kind direct x ++ more) e h a b
      | attributed ↦ by_source (λ x. by_kind attributed x ++ more) e h c d
    ]

pub submitted_evidence-valid :
    (e : ActionTargetEvidence) (route : Option SubmitRouteOutcome)
    → IsSource e
    → validate_evidence (submit_confirmation_evidence e route) ≡ true
unfolding validate_evidence
submitted_evidence-valid e none h = by_source (by_kind direct) e h refl refl
submitted_evidence-valid e (some o) h =
    elim o.route as (λ kind. validate_evidence (by_kind kind e) ≡ true) [
      | direct ↦ by_source (by_kind direct) e h refl refl
      | attributed ↦ by_source (by_kind attributed) e h refl refl
    ]
