-- ===== src/Refs/Repair.antt =====
-- androidctld/src/androidctld/refs/repair.py: the node that a ref of a source screen stands for now,
-- read from the live registry or from the screen's artifact, and the errors where there is none.
use androidctl.Prelude.{
  Text, text, text_eq, opt_text_eq, Bool, true, false, not, Option, none, some, List, [], ◌∷◌, ◌++◌,
  if◌then◌else◌,
}
use androidctl.TextEquivalence.{Unicode}
use androidctl.Models.Errors.{
  DaemonError, ref_resolution_failed, ref_stale, Detail, value, summary, dumped, Raised, returned,
  daemon_error, runtime_error, value_error,
}
use androidctl.Models.Snapshots.{RawSnapshot}
use androidctl.Models.Semantic.{CompiledScreen}
use androidctl.Models.Public.{PublicScreen}
use androidctl.Models.Refs.{get, RefBinding, RefRepairSourceSignature}
use androidctl.Runtime.Models.{Runtime, ScreenArtifacts}
use androidctl.Runtime.Screen.{current_compiled_screen}
use androidctl.Artifacts.Payloads.{
  ScreenArtifactPayload, RepairBindingPayload, binding_payload,
  source_signature_from_artifact_payload,
}
use androidctl.Artifacts.Scan.{ArtifactFiles}
use androidctl.Artifacts.Lookup.{
  SourceScreenArtifactLookup, found, not_found, invalid_artifact, lookup_source_screen_artifact,
}
use androidctl.Refs.Match.{source_signature_from_binding}
use androidctl.Refs.Reconcile.{repair_source_signature_to_current_snapshot}

pub data RepairDecisionStatus : Type 0 where
  resolved live_ref_missing source_unavailable unusable_artifact repair_failed :
      RepairDecisionStatus

pub record RepairDecision : Type 0 where
  pub ref : Option Text
  pub source_screen_id : Option Text
  pub status : RepairDecisionStatus
  pub binding : Option RefBinding
  pub source_signature : Option RefRepairSourceSignature

-- `RepairDecision.is_resolved`
abbrev pub is_resolved : RepairDecisionStatus → Bool
is_resolved resolved = true
is_resolved _ = false

-- `RepairDecision.diagnostic_source_artifact_status`
abbrev pub diagnostic_source_artifact_status : RepairDecisionStatus → Option Text
diagnostic_source_artifact_status source_unavailable = some (text "source_unavailable")
diagnostic_source_artifact_status unusable_artifact = some (text "invalid_artifact")
diagnostic_source_artifact_status repair_failed = some (text "repair_failed")
diagnostic_source_artifact_status _ = none

-- A decision of a status without a binding or a signature.
abbrev pub bare_decision : Text → Text → RepairDecisionStatus → RepairDecision
bare_decision ref id status = record {
  ref = some ref;
  source_screen_id = some id;
  status = status;
  binding = none;
  source_signature = none;
}

abbrev pub resolved_repair_decision :
    Text → Text → RefBinding → Option RefRepairSourceSignature → RepairDecision
resolved_repair_decision ref id b signature = record {
  ref = some ref;
  source_screen_id = some id;
  status = resolved;
  binding = some b;
  source_signature = signature;
}

abbrev pub resolved_source_signature_decision :
    Text → Text → RefRepairSourceSignature → RepairDecision
resolved_source_signature_decision ref id signature = record {
  ref = some ref;
  source_screen_id = some id;
  status = resolved;
  binding = none;
  source_signature = some signature;
}

abbrev pub failed_repair_decision : Text → Text → RepairDecision
failed_repair_decision ref id = bare_decision ref id repair_failed

-- The decision on `payload.repair_bindings.get(ref)`.
unfoldable pub decide_binding : Text → Text → Option RepairBindingPayload → RepairDecision
decide_binding ref id none = bare_decision ref id unusable_artifact
decide_binding ref id (some b) =
    resolved_source_signature_decision ref id (source_signature_from_artifact_payload ref b)

-- The tests on the payload of a lookup that is `found`.
unfoldable pub decide_payload : Text → Text → Option ScreenArtifactPayload → RepairDecision
unfolding decide_binding
decide_payload ref id none = bare_decision ref id unusable_artifact
decide_payload ref id (some p) =
    if not (text_eq p.screen_id id)
    then bare_decision ref id unusable_artifact
    else decide_binding ref id (binding_payload ref p.repair_bindings)

unfoldable pub decide_lookup : Text → Text → SourceScreenArtifactLookup → RepairDecision
unfolding decide_payload
decide_lookup ref id l = elim l.status [
  | not_found ↦ bare_decision ref id source_unavailable
  | invalid_artifact ↦ bare_decision ref id unusable_artifact
  | found ↦ decide_payload ref id l.payload
]

-- The decision of the live registry.
unfoldable pub live_decision : Runtime → Text → Text → RepairDecision
live_decision r ref id = elim (get r.ref_registry ref) [
  | none ↦ bare_decision ref id live_ref_missing
  | some b ↦ resolved_repair_decision ref id b (some (source_signature_from_binding b))
]

module _ (u : Unicode) where
  -- The repair on the screen and the snapshot of the runtime.
  unfoldable pub repair_on :
      RefRepairSourceSignature → Text → Option CompiledScreen → Option RawSnapshot → RepairDecision
  repair_on signature id (some s) (some snapshot) =
      elim (repair_source_signature_to_current_snapshot u signature s snapshot.snapshot_id) [
        | none ↦ failed_repair_decision signature.ref id
        | some b ↦ resolved_repair_decision signature.ref id b none
      ]
  repair_on signature id _ _ = failed_repair_decision signature.ref id

  unfoldable pub repair_source_signature_decision :
      Runtime → RefRepairSourceSignature → Text → RepairDecision
  unfolding repair_on
  repair_source_signature_decision r signature id =
      repair_on signature id (current_compiled_screen r) r.latest_snapshot

  -- What `resolve_ref_decision` makes of the source decision.
  unfoldable pub repair_decision : Runtime → Text → RepairDecision → Raised RepairDecision
  unfolding repair_source_signature_decision
  repair_decision r id d =
      if not (is_resolved d.status)
      then returned d
      else if opt_text_eq (some id) r.current_screen_id
      then returned d
      else elim d.source_signature [
        | none ↦ runtime_error
        | some signature ↦ returned (repair_source_signature_decision r signature id)
      ]

module _ (u : Unicode) (files : ArtifactFiles) where
  unfoldable pub load_source_artifact_binding_decision :
      Runtime → Text → Text → Raised RepairDecision
  unfolding decide_lookup
  load_source_artifact_binding_decision r ref id =
      elim (lookup_source_screen_artifact u files r id) [
        | returned l ↦ returned (decide_lookup ref id l)
        | daemon_error e ↦ daemon_error e
        | runtime_error ↦ runtime_error
        | value_error ↦ value_error
      ]

  unfoldable pub resolve_source_binding_decision : Runtime → Text → Text → Raised RepairDecision
  unfolding live_decision load_source_artifact_binding_decision
  resolve_source_binding_decision r ref id =
      if opt_text_eq (some id) r.current_screen_id
      then returned (live_decision r ref id)
      else load_source_artifact_binding_decision r ref id

  unfoldable pub resolve_ref_decision : Runtime → Text → Text → Raised RepairDecision
  unfolding resolve_source_binding_decision repair_decision
  resolve_ref_decision r ref id = elim (resolve_source_binding_decision r ref id) [
    | returned d ↦ repair_decision u r id d
    | daemon_error e ↦ daemon_error e
    | runtime_error ↦ runtime_error
    | value_error ↦ value_error
  ]

abbrev no_artifacts : ScreenArtifacts
no_artifacts = record { screen_json = none; screen_xml = none; screenshot_png = none }

-- `artifacts or ScreenArtifacts(screen_json=None)`
abbrev artifacts_or_none : Option ScreenArtifacts → ScreenArtifacts
artifacts_or_none none = no_artifacts
artifacts_or_none (some a) = a

abbrev if_given : Text → Option Text → List (Text × Detail)
if_given name none = []
if_given name (some v) = (name, value (some v)) ∷ []

-- `normalized_status in (None, "repair_failed")`
abbrev pub stale_is_retryable : Option Text → Bool
stale_is_retryable none = true
stale_is_retryable (some s) = text_eq s (text "repair_failed")

-- `ref_stale_error`, for a status that `_normalize_source_artifact_status` lets pass.
unfoldable pub ref_stale_error :
    Option Text
    → Option PublicScreen
    → Option ScreenArtifacts
    → Option Text
    → Option Text
    → DaemonError
ref_stale_error ref public artifacts id status = record {
  code = ref_stale;
  retryable = stale_is_retryable status;
  details =
      (text "ref", value ref)
        ∷ (text "screen", summary public (artifacts_or_none artifacts))
        ∷ (text "artifacts", dumped (artifacts_or_none artifacts))
        ∷ if_given (text "sourceScreenId") id
      ++ if_given (text "sourceArtifactStatus") status;
  http_status = 200;
}

unfoldable pub ref_repair_error :
    RepairDecision → Option PublicScreen → Option ScreenArtifacts → DaemonError
unfolding ref_stale_error
ref_repair_error d public artifacts =
    let stale =
      ref_stale_error d.ref public artifacts d.source_screen_id
        (diagnostic_source_artifact_status d.status) in
    elim d.status [
      | live_ref_missing ↦ record {
        code = ref_resolution_failed;
        retryable = false;
        details = (text "ref", value d.ref) ∷ [];
        http_status = 200;
      }
      | _ ↦ stale
    ]
