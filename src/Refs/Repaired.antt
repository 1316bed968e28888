-- ===== src/Refs/Repaired.antt =====
-- What a repair of a source signature (refs/repair.py) says of the current screen.
use androidctl.Prelude.{Text, true, false, Option, none, some, ◌≡◌, ◌⊎◌, inl, inr, refl, ap, arith}
use androidctl.TextEquivalence.{Unicode}
use androidctl.Models.Snapshots.{RawSnapshot}
use androidctl.Models.Semantic.{CompiledScreen}
use androidctl.Models.Candidates.{Candidate, ref_candidates}
use androidctl.Models.Refs.{RefBinding, RefRepairSourceSignature}
use androidctl.Runtime.Models.{Runtime}
use androidctl.Runtime.Screen.{current_compiled_screen}
use androidctl.Refs.Match.{best_candidate_for_source_signature, binding_for_candidate}
use androidctl.Refs.Located.{Located, OnSome, ref_candidates-Located, best_for_source-OnSome}
use androidctl.Refs.Reconcile.{repair_source_signature_to_current_snapshot}
use androidctl.Refs.Repair.{
  RepairDecisionStatus, resolved, repair_failed, RepairDecision, bare_decision,
  resolved_repair_decision, repair_on, repair_source_signature_decision,
}

module _ (u : Unicode) where
  -- A repaired binding is that of a candidate of the screen.
  repair_to_current :
      (source : RefRepairSourceSignature) (s : CompiledScreen) (n : _)
      → OnSome
          (λ b.
            (c : Candidate) × Located s c × (b ≡ binding_for_candidate u source.ref c.node n true))
          (repair_source_signature_to_current_snapshot u source s n)
  unfolding repair_source_signature_to_current_snapshot
  repair_to_current source s n =
      (elim (best_candidate_for_source_signature u (λ c. c.node) source (ref_candidates s))
          as (λ o.
            OnSome (λ r. Located s r.0) o
            → OnSome
                (λ b.
                  (c : Candidate) × Located s c
                  × (b ≡ binding_for_candidate u source.ref c.node n true))
                (elim o [
                  | none ↦ none
                  | some (c, _) ↦ some (binding_for_candidate u source.ref c.node n true)
                ])) [ none ↦ λ h. tt | some (c, k) ↦ λ h. (c, h, refl) ])
        (best_for_source-OnSome u (λ c. c.node) (Located s) source (ref_candidates s)
          (ref_candidates-Located s))

  -- The binding is that of a node of the current screen, in the latest snapshot.
  abbrev pub Repaired : Runtime → Text → Option RefBinding → Type 0
  Repaired r ref found_binding =
      (s : CompiledScreen) × (snapshot : RawSnapshot) × (c : Candidate) × (current_compiled_screen r
        ≡ some s)
      × (r.latest_snapshot ≡ some snapshot)
      × Located s c
      × (found_binding ≡ some (binding_for_candidate u ref c.node snapshot.snapshot_id true))

  -- No screen or snapshot is there, or no candidate of the screen matches a source of this ref.
  abbrev pub Unrepaired : Runtime → Text → Type 0
  Unrepaired r ref =
      (current_compiled_screen r ≡ none)
      ⊎ (r.latest_snapshot ≡ none)
      ⊎ ((s : CompiledScreen) × (source : RefRepairSourceSignature) × (current_compiled_screen r
            ≡ some s)
          × (source.ref ≡ ref)
          × (best_candidate_for_source_signature u (λ c. c.node) source (ref_candidates s) ≡ none))

  -- What a repair of a signature says, by its status.
  abbrev pub OutcomeAs : Runtime → Text → Option RefBinding → RepairDecisionStatus → Type 0
  OutcomeAs r ref found_binding resolved = Repaired r ref found_binding
  OutcomeAs r ref found_binding repair_failed = Unrepaired r ref
  OutcomeAs r ref found_binding _ = true ≡ false

  abbrev pub RepairOutcome : Runtime → Text → RepairDecision → Type 0
  RepairOutcome r ref d = OutcomeAs r ref d.binding d.status

  no_match :
      (source : RefRepairSourceSignature) (s : CompiledScreen) (n : _)
      → repair_source_signature_to_current_snapshot u source s n ≡ none
      → best_candidate_for_source_signature u (λ c. c.node) source (ref_candidates s) ≡ none
  unfolding repair_source_signature_to_current_snapshot
  no_match source s n h = ground arith

  repair_on-RepairOutcome :
      (r : Runtime) (source : RefRepairSourceSignature) (id : Text) (o : Option CompiledScreen)
      (p : Option RawSnapshot)
      → current_compiled_screen r ≡ o
      → r.latest_snapshot ≡ p
      → RepairOutcome r source.ref (repair_on u source id o p)
  unfolding repair_on
  repair_on-RepairOutcome r source id none p e k = inl e
  repair_on-RepairOutcome r source id (some s) none e k = inr (inl k)
  repair_on-RepairOutcome r source id (some s) (some snapshot) e k =
      let n = snapshot.snapshot_id in
      (elim (repair_source_signature_to_current_snapshot u source s n)
          as (λ o.
            repair_source_signature_to_current_snapshot u source s n ≡ o
            → OnSome
                (λ b.
                  (c : Candidate) × Located s c
                  × (b ≡ binding_for_candidate u source.ref c.node n true))
                o
            → RepairOutcome r source.ref (elim o [
              | none ↦ bare_decision source.ref id repair_failed
              | some b ↦ resolved_repair_decision source.ref id b none
            ])) [
              | none ↦ λ gone h. inr (inr (s, source, e, refl, no_match source s n gone))
              | some b ↦ λ got h. (s, snapshot, h.0, e, k, h.1, ap some h.2)
            ])
        refl (repair_to_current source s n)

  -- A signature is repaired to a node of the current screen, in the latest snapshot, or there is no
  -- screen or snapshot, or none of the screen's candidates matches.
  pub repair_signature-RepairOutcome :
      (r : Runtime) (source : RefRepairSourceSignature) (id : Text)
      → RepairOutcome r source.ref (repair_source_signature_decision u r source id)
  unfolding repair_source_signature_decision
  repair_signature-RepairOutcome r source id =
      repair_on-RepairOutcome r source id (current_compiled_screen r) r.latest_snapshot refl refl
