-- ===== src/Refs/Decided.antt =====
-- What the decisions of refs/repair.py say of the runtime and the artifacts, in every status.
use androidctl.Prelude.{Text, opt_text_eq, Bool, true, false, Option, none, some, List, ◌≡◌, ◌⊎◌}
use androidctl.TextEquivalence.{Unicode}
use androidctl.Models.Errors.{Raised, returned, value_error, and_then}
use androidctl.Models.Refs.{get, RefBinding, RefRepairSourceSignature}
use androidctl.Runtime.Models.{Runtime}
use androidctl.Artifacts.Scan.{ArtifactFiles, ScreenArtifactScan, scan_candidates}
use androidctl.Artifacts.Refusals.{Refused}
use androidctl.Artifacts.Lookup.{SourceScreenArtifactLookup, newest, matching}
use androidctl.Artifacts.Verdict.{Verdict}
use androidctl.Refs.Repair.{
  RepairDecisionStatus, resolved, live_ref_missing, source_unavailable, unusable_artifact,
  repair_failed, RepairDecision, decide_lookup, repair_decision,
}
use androidctl.Refs.Repaired.{Repaired, Unrepaired}

-- What a decision on a ref says of the runtime and of the artifacts that were scanned.
module _ (u : Unicode) (files : ArtifactFiles) (r : Runtime) (ref id : Text) where
  -- The newest artifact of the screen, among those that the scan found.
  abbrev pub Newest : Option ScreenArtifactScan → Type 0
  Newest o =
      (scans : List ScreenArtifactScan) × (scan_candidates u files r ≡ returned scans)
      × (newest (matching id scans) ≡ o)

  abbrev pub current : Bool
  current = opt_text_eq (some id) r.current_screen_id

  abbrev pub DecidedAs : Option RefBinding → RepairDecisionStatus → Type 0
  DecidedAs found_binding resolved =
      ((current ≡ true)
        × (b : RefBinding) × (get r.ref_registry ref ≡ some b)
        × (found_binding ≡ some b))
      ⊎ ((current ≡ false) × Repaired u r ref found_binding)
  DecidedAs found_binding live_ref_missing = (current ≡ true) × (get r.ref_registry ref ≡ none)
  DecidedAs found_binding source_unavailable = (current ≡ false) × Newest none
  DecidedAs found_binding unusable_artifact =
      (current ≡ false) × (a : ScreenArtifactScan) × Newest (some a)
  DecidedAs found_binding repair_failed = (current ≡ false) × Unrepaired u r ref

  abbrev pub Decided : RepairDecision → Type 0
  Decided d = DecidedAs d.binding d.status

  -- What the source decision of a screen that is not the current one says.
  abbrev LoadedAs : Option RefRepairSourceSignature → RepairDecisionStatus → Type 0
  LoadedAs o resolved = (source : RefRepairSourceSignature) × (o ≡ some source) × (source.ref ≡ ref)
  LoadedAs o source_unavailable = Newest none
  LoadedAs o unusable_artifact = (a : ScreenArtifactScan) × Newest (some a)
  LoadedAs o _ = true ≡ false

  abbrev Loaded : RepairDecision → Type 0
  Loaded d = LoadedAs d.source_signature d.status

  -- What is made of a lookup.
  abbrev on_lookup : Raised SourceScreenArtifactLookup → Raised RepairDecision
  on_lookup x = and_then x (λ l. repair_decision u r id (decide_lookup ref id l))

  -- What the resolution returns, or why it raises.
  abbrev pub Answered : Raised RepairDecision → Type 0
  Answered (returned d) = Decided d
  Answered value_error = (current ≡ false) × Refused u files r
  Answered _ = ⊥
