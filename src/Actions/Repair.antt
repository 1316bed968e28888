-- ===== src/Actions/Repair.antt =====
-- `ActionCommandRepairer` of actions/repair.py. The fetch of a snapshot and the refresh of the screen
-- that it is given are arguments: the runtime after them, with the screen and its artifacts, or an
-- error.
use androidctl.Prelude.{not, Option, none, some, if◌then◌else◌, Text}
use androidctl.TextEquivalence.{Unicode}
use androidctl.Models.Errors.{Raised, returned, daemon_error, runtime_error, value_error}
use androidctl.Models.Public.{PublicScreen}
use androidctl.Models.Refs.{NodeHandle, RefRepairSourceSignature}
use androidctl.Models.Commands.{RefBoundActionCommand}
use androidctl.Runtime.Models.{Runtime, ScreenArtifacts}
use androidctl.Runtime.Screen.{current_public_screen}
use androidctl.Artifacts.Scan.{ArtifactFiles}
use androidctl.Refs.Repair.{
  RepairDecision, is_resolved, resolve_source_binding_decision, repair_source_signature_decision,
  ref_repair_error,
}
use androidctl.Actions.Requests.{ensure_screen_ready, current_artifacts}

-- The result of `ScreenRefreshService.refresh`, with the runtime that it leaves.
pub record Refreshed : Type 0 where
  pub session : Runtime
  pub public_screen : PublicScreen
  pub artifacts : Option ScreenArtifacts

abbrev or_current : Option ScreenArtifacts → Runtime → Option ScreenArtifacts
or_current none r = current_artifacts r
or_current (some a) r = some a

module _ (u : Unicode) (files : ArtifactFiles) (workspace_root : Text)
    (fetch_and_refresh : Runtime → Raised Refreshed) where
  -- The end: the repair on the refreshed screen.
  unfoldable pub repair_after_refresh :
      RefRepairSourceSignature → Text → Refreshed → Raised NodeHandle
  unfolding repair_source_signature_decision ref_repair_error
  repair_after_refresh source source_screen_id fresh =
      let d = repair_source_signature_decision u fresh.session source source_screen_id in
      if not (is_resolved d.status)
      then daemon_error
          (ref_repair_error d (some fresh.public_screen) (or_current fresh.artifacts fresh.session))
      else elim d.binding [ none ↦ runtime_error | some b ↦ returned b.handle ]

  -- The refresh, once the source is known.
  unfoldable pub refresh_and_repair :
      Runtime → Text → Option RefRepairSourceSignature → Raised NodeHandle
  unfolding repair_after_refresh
  refresh_and_repair r source_screen_id none = runtime_error
  refresh_and_repair r source_screen_id (some source) = elim (fetch_and_refresh r) [
    | returned fresh ↦ repair_after_refresh source source_screen_id fresh
    | daemon_error e ↦ daemon_error e
    | runtime_error ↦ runtime_error
    | value_error ↦ value_error
  ]

  unfoldable pub repair_from_source : Runtime → Text → RepairDecision → Raised NodeHandle
  unfolding refresh_and_repair ref_repair_error
  repair_from_source r source_screen_id d =
      if not (is_resolved d.status)
      then daemon_error (ref_repair_error d (current_public_screen r) (current_artifacts r))
      else refresh_and_repair r source_screen_id d.source_signature

  unfoldable pub repair_action_binding : Runtime → RefBoundActionCommand → Raised NodeHandle
  unfolding ensure_screen_ready repair_from_source resolve_source_binding_decision
  repair_action_binding r command = elim (ensure_screen_ready workspace_root r) [
    | some e ↦ daemon_error e
    | none ↦ elim (resolve_source_binding_decision u files r command.ref command.source_screen_id) [
      | returned d ↦ repair_from_source r command.source_screen_id d
      | daemon_error e ↦ daemon_error e
      | runtime_error ↦ runtime_error
      | value_error ↦ value_error
    ]
  ]
