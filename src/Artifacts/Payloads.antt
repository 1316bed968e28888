-- ===== src/Artifacts/Payloads.antt =====
-- androidctld/src/androidctld/artifacts/screen_payloads.py: what a screen artifact keeps of the refs
-- of its screen, and `source_signature_from_artifact_payload` of refs/service.py, which reads it.
use androidctl.Prelude.{ℕ, Text, text_eq, Bool, Option, none, some, List, [], ◌∷◌, if◌then◌else◌}
use androidctl.Prelude.Int.{ℤ, pos}
use androidctl.Models.Snapshots.{Bounds}
use androidctl.Models.Public.{PublicScreen, PublicGroup}
use androidctl.Models.Refs.{
  RefFingerprint, SemanticProfile, RefBinding, RefRegistry, RefRepairSourceSignature,
}

pub record RepairFingerprintPayload : Type 0 where
  pub role : Text
  pub normalized_label : Text
  pub resource_id : Text
  pub class_name : Text
  pub parent_role : Text
  pub parent_label : Text
  pub sibling_labels : List Text
  pub relative_bounds : Bounds

pub record RepairSemanticProfilePayload : Type 0 where
  pub state : List Text
  pub actions : List Text

pub record RepairBindingPayload : Type 0 where
  pub fingerprint : RepairFingerprintPayload
  pub semantic_profile : RepairSemanticProfilePayload

pub record ScreenArtifactPayload : Type 0 where
  pub screen_id : Text
  pub sequence : ℤ
  pub source_snapshot_id : ℤ
  pub captured_at : Text
  pub package_name : Option Text
  pub activity_name : Option Text
  pub keyboard_visible : Bool
  pub groups : List PublicGroup
  pub repair_bindings : List (Text × RepairBindingPayload)

unfoldable pub build_repair_fingerprint_payload : RefFingerprint → RepairFingerprintPayload
build_repair_fingerprint_payload f = record {
  role = f.role;
  normalized_label = f.normalized_label;
  resource_id = f.resource_id;
  class_name = f.class_name;
  parent_role = f.parent_role;
  parent_label = f.parent_label;
  sibling_labels = f.sibling_labels;
  relative_bounds = f.relative_bounds;
}

unfoldable pub build_repair_semantic_profile_payload :
    SemanticProfile → RepairSemanticProfilePayload
build_repair_semantic_profile_payload p = record { state = p.state; actions = p.actions }

unfoldable pub build_repair_binding_payload : RefBinding → RepairBindingPayload
unfolding build_repair_fingerprint_payload build_repair_semantic_profile_payload
build_repair_binding_payload b = record {
  fingerprint = build_repair_fingerprint_payload b.fingerprint;
  semantic_profile = build_repair_semantic_profile_payload b.semantic_profile;
}

-- `{ref: build_repair_binding_payload(binding) for ref, binding in ...}`
unfoldable pub build_repair_bindings : List (Text × RefBinding) → List (Text × RepairBindingPayload)
unfolding build_repair_binding_payload
build_repair_bindings [] = []
build_repair_bindings ((ref, b) ∷ rest) =
    (ref, build_repair_binding_payload b) ∷ build_repair_bindings rest

-- `build_screen_artifact_payload`, before `model_dump`.
unfoldable pub build_screen_artifact_payload :
    PublicScreen → RefRegistry → ℕ → ℕ → Text → ScreenArtifactPayload
unfolding build_repair_bindings
build_screen_artifact_payload screen registry sequence source_snapshot_id captured_at = record {
  screen_id = screen.screen_id;
  sequence = pos sequence;
  source_snapshot_id = pos source_snapshot_id;
  captured_at = captured_at;
  package_name = screen.app.package_name;
  activity_name = screen.app.activity_name;
  keyboard_visible = screen.surface.keyboard_visible;
  groups = screen.groups;
  repair_bindings = build_repair_bindings registry.bindings;
}

-- `payload.repair_bindings.get(ref)`
unfoldable pub binding_payload :
    Text → List (Text × RepairBindingPayload) → Option RepairBindingPayload
binding_payload ref [] = none
binding_payload ref ((r, p) ∷ rest) = if text_eq r ref then some p else binding_payload ref rest

unfoldable pub source_signature_from_artifact_payload :
    Text → RepairBindingPayload → RefRepairSourceSignature
source_signature_from_artifact_payload ref p = record {
  ref = ref;
  fingerprint = record {
    role = p.fingerprint.role;
    normalized_label = p.fingerprint.normalized_label;
    resource_id = p.fingerprint.resource_id;
    class_name = p.fingerprint.class_name;
    parent_role = p.fingerprint.parent_role;
    parent_label = p.fingerprint.parent_label;
    sibling_labels = p.fingerprint.sibling_labels;
    relative_bounds = p.fingerprint.relative_bounds;
  };
  state = p.semantic_profile.state;
  actions = p.semantic_profile.actions;
}
