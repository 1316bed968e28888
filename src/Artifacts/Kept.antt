-- ===== src/Artifacts/Kept.antt =====
-- What a screen artifact keeps of a registry (artifacts/screen_payloads.py) is what the repair of a
-- ref needs.
use androidctl.Prelude.{
  ℕ, Text, text_eq_iff, Option, none, some, List, [], ◌∷◌, All, ◌≡◌, refl, arith,
}
use androidctl.Models.Public.{PublicScreen}
use androidctl.Models.Refs.{get, lookup_ref, RefBinding, RefRegistry, RefRepairSourceSignature}
use androidctl.Artifacts.Payloads.{
  RepairBindingPayload, build_repair_fingerprint_payload, build_repair_semantic_profile_payload,
  build_repair_binding_payload, build_repair_bindings, build_screen_artifact_payload,
  binding_payload, source_signature_from_artifact_payload,
}
use androidctl.Refs.Match.{source_signature_from_binding}
use androidctl.Refs.Naming.{Keyed}

-- The signature of a ref that a payload keeps, and that of its live binding.
abbrev pub kept_signature : Text → Option RepairBindingPayload → Option RefRepairSourceSignature
kept_signature ref none = none
kept_signature ref (some p) = some (source_signature_from_artifact_payload ref p)

abbrev pub live_signature : Option RefBinding → Option RefRepairSourceSignature
live_signature none = none
live_signature (some b) = some (source_signature_from_binding b)

signature_of_payload :
    (ref : Text) (b : RefBinding)
    → ref ≡ b.ref
    → source_signature_from_artifact_payload ref (build_repair_binding_payload b)
      ≡ source_signature_from_binding b
unfolding source_signature_from_artifact_payload build_repair_binding_payload
    build_repair_fingerprint_payload build_repair_semantic_profile_payload
    source_signature_from_binding
signature_of_payload ref b e = rw (e) refl

kept-lookup :
    (ref : Text) (bs : List (Text × RefBinding))
    → All Keyed bs
    → kept_signature ref (binding_payload ref (build_repair_bindings bs))
      ≡ live_signature (lookup_ref ref bs)
unfolding binding_payload build_repair_bindings lookup_ref
kept-lookup ref [] h = refl
kept-lookup ref ((r, b) ∷ bs) h =
    ground (arith, text_eq_iff r ref, signature_of_payload ref b, kept-lookup ref bs h.1)

-- For every ref, the artifact that is built for a screen and a registry of well-keyed bindings keeps
-- the signature of the registry's binding, and none where the registry has none.
pub artifact_keeps_signatures :
    (screen : PublicScreen) (registry : RefRegistry) (sequence snapshot_id : ℕ)
    (captured_at ref : Text)
    → All Keyed registry.bindings
    → kept_signature ref (
        binding_payload ref
          (build_screen_artifact_payload screen registry sequence snapshot_id
            captured_at).repair_bindings)
      ≡ live_signature (get registry ref)
unfolding build_screen_artifact_payload get
artifact_keeps_signatures screen registry sequence snapshot_id captured_at ref h =
    kept-lookup ref registry.bindings h
