-- ===== src/Models/Evidence.antt =====
-- `ActionTargetPayload` of contracts/src/androidctl_contracts/command_results.py, with the validators of
-- its evidence and of its identity. The format of the refs is not looked at.
use androidctl.Prelude.{
  ℕ, Text, opt_text_eq, nat_eq, Bool, true, false, ◌&&◌, not, any, is_some, Option, some, List, [],
  ◌∷◌,
}

pub data ActionTargetEvidence : Type 0 where
  live_ref ref_repair request_target_evidence resolved_target_evidence : ActionTargetEvidence
  reused_ref_evidence fingerprint_rematch_evidence focus_confirmation : ActionTargetEvidence
  type_confirmation submit_confirmation attributed_route target_gone_evidence : ActionTargetEvidence
  public_change_evidence ambiguous_successor : ActionTargetEvidence

pub data ActionTargetIdentityStatus : Type 0 where
  same_ref successor gone identity_unconfirmed : ActionTargetIdentityStatus

pub record ActionTargetPayload : Type 0 where
  pub source_ref : Text
  pub source_screen_id : Text
  pub subject_ref : Text
  pub next_screen_id : Text
  pub identity_status : ActionTargetIdentityStatus
  pub evidence : List ActionTargetEvidence
  pub dispatched_ref : Option Text
  pub next_ref : Option Text

abbrev evidence_number : ActionTargetEvidence → ℕ
evidence_number live_ref = 0
evidence_number ref_repair = 1
evidence_number request_target_evidence = 2
evidence_number resolved_target_evidence = 3
evidence_number reused_ref_evidence = 4
evidence_number fingerprint_rematch_evidence = 5
evidence_number focus_confirmation = 6
evidence_number type_confirmation = 7
evidence_number submit_confirmation = 8
evidence_number attributed_route = 9
evidence_number target_gone_evidence = 10
evidence_number public_change_evidence = 11
evidence_number ambiguous_successor = 12

abbrev all_different : List ActionTargetEvidence → Bool
all_different [] = true
all_different (e ∷ es) =
    not (any (λ f. nat_eq (evidence_number e) (evidence_number f)) es) && all_different es

-- `validate_evidence`
unfoldable pub validate_evidence : List ActionTargetEvidence → Bool
validate_evidence [] = false
validate_evidence (e ∷ es) = all_different (e ∷ es)

-- `validate_identity_invariants`
unfoldable pub validate_identity_invariants : ActionTargetPayload → Bool
validate_identity_invariants p = elim p.identity_status [
  | same_ref ↦ opt_text_eq p.next_ref (some p.subject_ref)
  | successor ↦ is_some p.next_ref && not (opt_text_eq p.next_ref (some p.subject_ref))
  | gone ↦ not (is_some p.next_ref)
  | identity_unconfirmed ↦ not (is_some p.next_ref)
]
