-- ===== src/Actions/Repaired.antt =====
-- What `ActionCommandRepairer.repair_action_binding` of actions/repair.py returns, whatever the refresh
-- of the screen does.
use androidctl.Prelude.{Text, true, not, Option, none, some, ◌≡◌, refl, arith, by_if}
use androidctl.TextEquivalence.{Unicode}
use androidctl.Models.Errors.{Raised, returned, daemon_error, runtime_error, value_error}
use androidctl.Models.Refs.{NodeHandle, RefBinding, RefRepairSourceSignature}
use androidctl.Models.Commands.{RefBoundActionCommand}
use androidctl.Runtime.Models.{Runtime}
use androidctl.Artifacts.Scan.{ArtifactFiles}
use androidctl.Refs.Repair.{
  RepairDecisionStatus, resolved, live_ref_missing, source_unavailable, unusable_artifact,
  repair_failed, RepairDecision, is_resolved, resolve_source_binding_decision,
  repair_source_signature_decision,
}
use androidctl.Refs.Repaired.{Repaired, OutcomeAs, repair_signature-RepairOutcome}
use androidctl.Actions.Requests.{ensure_screen_ready}
use androidctl.Actions.Repair.{
  Refreshed, repair_after_refresh, refresh_and_repair, repair_from_source, repair_action_binding,
}

module _ (u : Unicode) (files : ArtifactFiles) (workspace_root : Text)
    (fetch_and_refresh : Runtime → Raised Refreshed) (r : Runtime) where
  -- A handle is that of a node of the refreshed screen, in the refreshed snapshot.
  abbrev pub HandleOutcome : Raised NodeHandle → Type 0
  HandleOutcome (returned h) =
      (fresh : Refreshed) × (source : RefRepairSourceSignature) × (b : RefBinding)
      × (fetch_and_refresh r ≡ returned fresh)
      × (b.handle ≡ h)
      × Repaired u fresh.session source.ref (some b)
  HandleOutcome (daemon_error _) = Unit
  HandleOutcome runtime_error = Unit
  HandleOutcome value_error = Unit

  resolved-Repaired :
      (session : Runtime) (ref : Text) (o : Option RefBinding) (s : RepairDecisionStatus)
      → is_resolved s ≡ true
      → OutcomeAs u session ref o s
      → Repaired u session ref o
  resolved-Repaired session ref o resolved h k = k
  resolved-Repaired session ref o live_ref_missing h k = absurd cc
  resolved-Repaired session ref o source_unavailable h k = absurd cc
  resolved-Repaired session ref o unusable_artifact h k = absurd cc
  resolved-Repaired session ref o repair_failed h k = absurd cc

  binding_handle :
      (fresh : Refreshed) (source : RefRepairSourceSignature) (o : Option RefBinding)
      → fetch_and_refresh r ≡ returned fresh
      → Repaired u fresh.session source.ref o
      → HandleOutcome (elim o [ none ↦ runtime_error | some b ↦ returned b.handle ])
  binding_handle fresh source none e h = tt
  binding_handle fresh source (some b) e h = (fresh, source, b, e, refl, h)

  after_refresh :
      (fresh : Refreshed) (source : RefRepairSourceSignature) (id : Text)
      → fetch_and_refresh r ≡ returned fresh
      → HandleOutcome
          (repair_after_refresh u files workspace_root fetch_and_refresh source id fresh)
  unfolding repair_after_refresh
  after_refresh fresh source id e =
      let d = repair_source_signature_decision u fresh.session source id in
      by_if HandleOutcome (not (is_resolved d.status)) _ _ (λ _. tt)
        (λ k. binding_handle fresh source d.binding e (
          resolved-Repaired fresh.session source.ref d.binding d.status (ground arith)
            (repair_signature-RepairOutcome u fresh.session source id)))

  refreshed :
      (id : Text) (o : Option RefRepairSourceSignature)
      → HandleOutcome (refresh_and_repair u files workspace_root fetch_and_refresh r id o)
  unfolding refresh_and_repair
  refreshed id none = tt
  refreshed id (some source) =
      (elim (fetch_and_refresh r)
          as (λ x.
            fetch_and_refresh r ≡ x
            → HandleOutcome (elim x [
              | returned fresh ↦
                  repair_after_refresh u files workspace_root fetch_and_refresh source id fresh
              | daemon_error e ↦ daemon_error e
              | runtime_error ↦ runtime_error
              | value_error ↦ value_error
            ])) [
              | returned fresh ↦ λ e. after_refresh fresh source id e
              | daemon_error _ ↦ λ _. tt
              | runtime_error ↦ λ _. tt
              | value_error ↦ λ _. tt
            ])
        refl

  from_source :
      (id : Text) (d : RepairDecision)
      → HandleOutcome (repair_from_source u files workspace_root fetch_and_refresh r id d)
  unfolding repair_from_source
  from_source id d =
      by_if HandleOutcome (not (is_resolved d.status)) _ _ (λ _. tt)
        (λ _. refreshed id d.source_signature)

  abbrev from_decision : RefBoundActionCommand → Raised NodeHandle
  from_decision command =
      elim (resolve_source_binding_decision u files r command.ref command.source_screen_id) [
        | returned d ↦
            repair_from_source u files workspace_root fetch_and_refresh r command.source_screen_id d
        | daemon_error e ↦ daemon_error e
        | runtime_error ↦ runtime_error
        | value_error ↦ value_error
      ]

  -- A handle that a command's repair returns is that of a candidate node of the screen that the
  -- refresh has left, in the
  -- snapshot that it has left.
  pub repair_action-HandleOutcome :
      (command : RefBoundActionCommand)
      → HandleOutcome (repair_action_binding u files workspace_root fetch_and_refresh r command)
  unfolding repair_action_binding
  repair_action-HandleOutcome command =
      elim (ensure_screen_ready workspace_root r)
        as (λ o.
          HandleOutcome (elim o [ some e ↦ daemon_error e | none ↦ from_decision command ])) [
            | some e ↦ tt
            | none ↦
                elim (resolve_source_binding_decision u files r command.ref
                    command.source_screen_id)
                  as (λ x. HandleOutcome (elim x [
                    | returned d ↦
                        repair_from_source u files workspace_root fetch_and_refresh r
                          command.source_screen_id d
                    | daemon_error e ↦ daemon_error e
                    | runtime_error ↦ runtime_error
                    | value_error ↦ value_error
                  ])) [
                    | returned d ↦ from_source command.source_screen_id d
                    | daemon_error _ ↦ tt
                    | runtime_error ↦ tt
                    | value_error ↦ tt
                  ]
          ]
