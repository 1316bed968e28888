-- ===== src/Runtime/ScreenCommit.antt =====
-- What `RuntimeKernel` of runtime/kernel.py does to the current screen: the attachment of a
-- screenshot, and the commit of a refreshed screen with its rollback.
use androidctl.Prelude.{ℕ, Text, Option, none, some, List, if◌then◌else◌, not}
use androidctl.Models.Snapshots.{RawSnapshot}
use androidctl.Models.Semantic.{CompiledScreen}
use androidctl.Models.Public.{PublicScreen}
use androidctl.Models.Refs.{RefRegistry}
use androidctl.Artifacts.Files.{Outcome, done, raised}
use androidctl.Artifacts.Staged.{StagedFileUpdate, commit_all, rollback_all, discard_all}
use androidctl.Runtime.Models.{
  Runtime, RuntimeStatus, ready, ScreenArtifacts, ScreenState, World, Failure, os_failure,
  cancelled, Result, ok, err, Run,
}
use androidctl.Runtime.Lifecycle.{Lease, is_current, on_runtime, commit_runtime}
use androidctl.Runtime.Kernel.{admits}

pub record ScreenshotArtifactAttachment : Type 0 where
  pub current_screen : Option PublicScreen
  pub artifacts : ScreenArtifacts

abbrev known_artifacts : Option ScreenState → ScreenArtifacts
known_artifacts none = record { screen_json = none; screen_xml = none; screenshot_png = none }
known_artifacts (some s) = elim s.artifacts [
  | none ↦ record { screen_json = none; screen_xml = none; screenshot_png = none }
  | some a ↦ a
]

abbrev attached : Option ScreenState → ScreenArtifacts → ScreenState
attached none a = record { public_screen = none; compiled_screen = none; artifacts = some a }
attached (some s) a = record s { artifacts = some a }

-- An attachment is not persisted.
unfoldable pub attach_screenshot_artifact :
    Lease → Text → World → Run (Option ScreenshotArtifactAttachment)
attach_screenshot_artifact lease screenshot_png w =
    if not (is_current lease w.runtime)
    then (ok none, w)
    else let a = known_artifacts w.runtime.screen_state in
      let artifacts = record a { screenshot_png = some screenshot_png } in
      let state = attached w.runtime.screen_state artifacts in
      (
        ok (some (record { current_screen = state.public_screen; artifacts = artifacts })),
        on_runtime (λ r. record r { screen_state = some state }) w,
      )

pub record ScreenRefreshUpdate : Type 0 where
  pub sequence : ℕ
  pub snapshot : RawSnapshot
  pub public_screen : PublicScreen
  pub compiled_screen : CompiledScreen
  pub artifacts : ScreenArtifacts
  pub ref_registry : RefRegistry
  pub staged_artifacts : List StagedFileUpdate

abbrev attempt : Outcome → Result (Unit {0})
attempt done = ok tt
attempt (raised e) = err (os_failure e)

-- `_commit_screen_refresh_locked`, with the snapshot before it as `previous_snapshot`
unfoldable pub commit_refresh_locked : ScreenRefreshUpdate → Option RawSnapshot → Runtime → Runtime
commit_refresh_locked update previous r = record r {
  previous_snapshot = previous;
  latest_snapshot = some update.snapshot;
  screen_sequence = update.sequence;
  current_screen_id = some update.public_screen.screen_id;
  status = ready;
  screen_state = some (record {
    public_screen = some update.public_screen;
    compiled_screen = some update.compiled_screen;
    artifacts = some update.artifacts;
  });
  ref_registry = update.ref_registry;
}

-- `_ScreenRefreshRestoreState`
pub record ScreenRefreshRestoreState : Type 0 where
  pub screen_sequence : ℕ
  pub current_screen_id : Option Text
  pub status : RuntimeStatus
  pub latest_snapshot : Option RawSnapshot
  pub previous_snapshot : Option RawSnapshot
  pub screen_state : Option ScreenState
  pub ref_registry : RefRegistry

unfoldable pub capture_restore_state : Runtime → ScreenRefreshRestoreState
capture_restore_state r = record {
  screen_sequence = r.screen_sequence;
  current_screen_id = r.current_screen_id;
  status = r.status;
  latest_snapshot = r.latest_snapshot;
  previous_snapshot = r.previous_snapshot;
  screen_state = r.screen_state;
  ref_registry = r.ref_registry;
}

abbrev restored : ScreenRefreshRestoreState → Runtime → Runtime
restored s r = record r {
  screen_sequence = s.screen_sequence;
  current_screen_id = s.current_screen_id;
  status = s.status;
  latest_snapshot = s.latest_snapshot;
  previous_snapshot = s.previous_snapshot;
  screen_state = s.screen_state;
  ref_registry = s.ref_registry;
}

-- `rollback_refresh`, and the exception that called for it again; an exception of the rollback
-- takes its place.
unfoldable pub rollback_refresh :
    Failure → Option ScreenRefreshRestoreState → List StagedFileUpdate → World → Run (Unit {0})
rollback_refresh failure none staged w =
    let (o, fs) = discard_all staged w.fs in
    (elim o [ done ↦ err failure | raised e ↦ err (os_failure e) ], record w { fs = fs })
rollback_refresh failure (some state) staged w =
    let w₁ = on_runtime (restored state) w in
    let (o, staged', fs) = rollback_all staged w₁.fs in
    elim o [
      | raised e ↦ (err (os_failure e), record w₁ { fs = fs })
      | done ↦
          let (o', fs') = discard_all staged' fs in
          (elim o' [ done ↦ err failure | raised e ↦ err (os_failure e) ], record w₁ { fs = fs' })
    ]

-- The body and the commit of `committed_runtime_mutation`, after `pre_commit` has returned.
unfoldable pub commit_staged_refresh : ScreenRefreshUpdate → World → Run (Unit {0})
unfolding commit_refresh_locked capture_restore_state rollback_refresh
commit_staged_refresh update w =
    let state = capture_restore_state w.runtime in
    let (o, staged, fs₁) = commit_all update.staged_artifacts w.fs in
    elim o [
      | raised e ↦ rollback_refresh (os_failure e) (some state) staged (record w { fs = fs₁ })
      | done ↦
          let w₁ = record w {
            runtime = commit_refresh_locked update state.latest_snapshot w.runtime;
            fs = fs₁;
          } in
          let (r, w₂) = commit_runtime w₁ in
          elim r [
            | err e ↦ rollback_refresh e (some state) staged w₂
            | ok _ ↦
                let (o', fs₂) = discard_all staged w₂.fs in (attempt o', record w₂ { fs = fs₂ })
          ]
    ]

-- `commit_screen_refresh`; `pre_commit` raises or returns, and changes nothing.
unfoldable pub commit_screen_refresh :
    (Runtime → Option Failure) → ScreenRefreshUpdate → World → Run (Unit {0})
unfolding commit_staged_refresh rollback_refresh
commit_screen_refresh pre_commit update w = elim (pre_commit w.runtime) [
  | some e ↦ rollback_refresh e none update.staged_artifacts w
  | none ↦ commit_staged_refresh update w
]

-- `raise_if_stale` of snapshots/refresh.py as a `pre_commit`.
unfoldable pub raise_if_stale : Option Lease → Runtime → Option Failure
raise_if_stale lease r = if admits lease r then none else some cancelled
