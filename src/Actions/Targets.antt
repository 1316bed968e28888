-- ===== src/Actions/Targets.antt =====
-- The node that a command on a ref is sent to, and why there is none: `resolve_ref_target` of
-- actions/request_builder.py on the decisions of refs/repair.py.
use androidctl.Prelude.{Text, Bool, true, false, not, ◌||◌, is_some, Option, none, some, ◌≡◌, ◌⊎◌}
use androidctl.TextEquivalence.{Unicode}
use androidctl.Models.Errors.{
  screen_not_ready, ref_resolution_failed, ref_stale, DaemonError, Raised, returned, daemon_error,
  runtime_error, value_error,
}
use androidctl.Models.Refs.{get, NodeHandle, RefBinding, RefRepairSourceSignature}
use androidctl.Runtime.Models.{Runtime}
use androidctl.Artifacts.Scan.{ArtifactFiles}
use androidctl.Refs.Repair.{RepairDecisionStatus, RepairDecision}
use androidctl.Refs.Repaired.{Repaired, Unrepaired}
use androidctl.Refs.Decided.{current}
use androidctl.Artifacts.Refusals.{Refused}

module _ (u : Unicode) (files : ArtifactFiles) (workspace_root : Text) (r : Runtime)
    (ref id : Text) where
  -- The screen or the snapshot is missing.
  abbrev unready : Bool
  unready = not (is_some r.screen_state) || not (is_some r.latest_snapshot)

  -- Each error with its cause.
  abbrev pub Cause : DaemonError → Type 0
  Cause e =
      ((e.code ≡ screen_not_ready) × (e.retryable ≡ false) × (unready ≡ true))
      ⊎ ((e.code ≡ ref_resolution_failed)
          × (e.retryable ≡ false)
          × (current u files r ref id ≡ true)
          × (get r.ref_registry ref ≡ none))
      ⊎ ((e.code ≡ ref_stale) × (e.retryable ≡ false) × (current u files r ref id ≡ false))
      ⊎ ((e.code ≡ ref_stale)
          × (e.retryable ≡ true)
          × (current u files r ref id ≡ false)
          × Unrepaired u r ref)

  abbrev pub TargetOutcome : Raised NodeHandle → Type 0
  TargetOutcome (returned h) =
      (b : RefBinding) × (b.handle ≡ h)
      × (((current u files r ref id ≡ true) × (get r.ref_registry ref ≡ some b))
          ⊎ ((current u files r ref id ≡ false) × Repaired u r ref (some b)))
  TargetOutcome (daemon_error e) = Cause e
  TargetOutcome runtime_error = ⊥
  TargetOutcome value_error = (current u files r ref id ≡ false) × Refused u files r

  -- The decision of these fields.
  abbrev decision :
      Option Text
      → Option Text
      → RepairDecisionStatus
      → Option RefBinding
      → Option RefRepairSourceSignature
      → RepairDecision
  decision a i s b o = record {
    ref = a;
    source_screen_id = i;
    status = s;
    binding = b;
    source_signature = o;
  }
