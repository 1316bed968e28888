-- ===== src/Runtime/Tests.antt =====
-- Tests of the runtime on the sample worlds.
use androidctl.Prelude.{
  text_eq, ◌+◌, ◌*◌, text, true, false, none, some, [], ◌∷◌, ◌++◌, ◌≡◌, ◌⊎◌, ◌↔◌, refl, arith, not,
  ◌||◌,
}
use mathlib.Core.List.{Perm}
use androidctl.Artifacts.Files.{replace, unlink}
use androidctl.Artifacts.Staged.{commit, commit_all, rollback, rollback_all, discard, discard_all}
use androidctl.Runtime.Models.{ok, err, runtime_busy, ready, broken, is_ready}
use androidctl.Runtime.Screen.{AuthoritativeCurrentBasis, get_authoritative_current_basis}
use androidctl.Runtime.Lifecycle.{
  capture_lifecycle_lease, commit_runtime, state_file_of, has_live_public_screen,
  normalize_stale_ready_runtime, status_for_persisted_runtime,
}
use androidctl.Runtime.Kernel.{close_runtime}
use androidctl.Runtime.ScreenCommit.{commit_refresh_locked, commit_screen_refresh, raise_if_stale}
use androidctl.Runtime.Store.{get_runtime, restart_is_disconnected}
use androidctl.Runtime.Operations.{fail, begin, refresh, rebootstrap, run, step, reports}
use androidctl.Runtime.Refresh.{is_ok, refresh_all_or_nothing}
use androidctl.Runtime.Authority.{Read, refresh_is_authoritative, basis_sound, normalize_repairs}
use androidctl.Runtime.DeviceSession.{SessionStep, session_of}
use androidctl.Runtime.Session.{has_its_screen, kernel_refines, ready_keeps_screen}
use androidctl.Runtime.Leases.{Untouched, closed_lease_is_dead}
use androidctl.Runtime.Transports.{held, handed, transports_conserved}
use androidctl.Runtime.Lane.{
  query_wait_ms, acquire_progress_lane, release_progress_lane, acquire_query_lane, Returns,
  lane_is_exclusive, query_wait_ends,
}
use androidctl.Runtime.Samples.{transport, bootstrap_result, screen_update, world, faulty_world}

refresh_all_or_nothing_example :
    let (result, w') = commit_screen_refresh (raise_if_stale none) screen_update faulty_world in
    let refreshed = commit_refresh_locked screen_update none faulty_world.runtime in
    ((is_ok result ≡ false) × (w'.runtime ≡ faulty_world.runtime) × (w'.state_file ≡ none))
    ⊎ ((w'.runtime ≡ refreshed) × (w'.state_file ≡ some (state_file_of refreshed)))
refresh_all_or_nothing_example =
    refresh_all_or_nothing (raise_if_stale none) screen_update faulty_world

-- The refused call makes the refresh raise.
refused : is_ok (commit_screen_refresh (raise_if_stale none) screen_update faulty_world).0 ≡ false
unfolding commit_screen_refresh commit_runtime raise_if_stale commit_all commit replace text_eq
    rollback_all rollback unlink discard_all discard
refused = refl

refreshed : (commit_screen_refresh (raise_if_stale none) screen_update world).0 ≡ ok tt
unfolding commit_screen_refresh commit_runtime raise_if_stale commit_all commit replace text_eq
    unlink discard_all discard
refreshed = refl

refresh_is_authoritative_example :
    (b : AuthoritativeCurrentBasis) × (get_authoritative_current_basis
        (commit_screen_refresh (raise_if_stale none) screen_update world).1.runtime
      ≡ some b)
    × (b.screen_id ≡ screen_update.public_screen.screen_id)
    × (b.screen_sequence ≡ screen_update.sequence)
    × (b.snapshot_id ≡ screen_update.snapshot.snapshot_id)
    × (b.public_screen ≡ screen_update.public_screen)
    × (b.compiled_screen ≡ screen_update.compiled_screen)
refresh_is_authoritative_example =
    refresh_is_authoritative (raise_if_stale none) screen_update world
      (record {
        named = refl;
        same_id = refl;
        source = refl;
        in_order = refl;
        captured = refl;
        in_package = refl;
        in_activity = refl;
        public_package = refl;
        public_activity = refl;
      })
      refreshed

closed_lease_is_dead_example :
    let w' = run (begin (record { revision = 1 }) transport ∷ []) (close_runtime world).1 in
    Untouched w' (
      run
        (fail (capture_lifecycle_lease world.runtime)
          ∷ refresh (some (capture_lifecycle_lease world.runtime)) screen_update
          ∷ [])
        w')
closed_lease_is_dead_example =
    closed_lease_is_dead world (begin (record { revision = 1 }) transport ∷ [])
      (fail (capture_lifecycle_lease world.runtime)
        ∷ refresh (some (capture_lifecycle_lease world.runtime)) screen_update
        ∷ [])
      (refl, (refl, tt))

transports_conserved_example :
    Perm
      (held (step (rebootstrap (record { revision = 0 }) bootstrap_result) world))
      (handed world (rebootstrap (record { revision = 0 }) bootstrap_result) ++ held world)
transports_conserved_example =
    transports_conserved (rebootstrap (record { revision = 0 }) bootstrap_result) world refl

query_wait_ends_example :
    Returns
      (5 + query_wait_ms)
      (λ k. 5 + 20 * k)
      (acquire_query_lane
        (λ k. 5 + 20 * k)
        (λ _ r. r)
        5
        11
        (record (world.runtime) { progress_lock = true }))
query_wait_ends_example =
    query_wait_ends (λ k. 5 + 20 * k) (λ _ r. r) 5 (record (world.runtime) { progress_lock = true })
      (λ j. omega arith)

acquired : (acquire_progress_lane (text "tap") world.runtime).0 ≡ ok tt
unfolding acquire_progress_lane
acquired = refl

lane_is_exclusive_example :
    let held = (acquire_progress_lane (text "tap") world.runtime).1 in
    let freed = (release_progress_lane held).1 in
    (acquire_progress_lane (text "type") held ≡ (err runtime_busy, held))
    × (held.progress_occupant_kind ≡ some (text "tap"))
    × ((release_progress_lane held).0 ≡ ok tt)
    × (freed.progress_occupant_kind ≡ none)
    × ((acquire_progress_lane (text "type") freed).0 ≡ ok tt)
lane_is_exclusive_example = lane_is_exclusive (text "tap") (text "type") world.runtime acquired

normalize_repairs_example :
    let w' = (normalize_stale_ready_runtime world).1 in
    (not (is_ready w'.runtime.status) || has_live_public_screen w'.runtime ≡ true)
    × (normalize_stale_ready_runtime w' ≡ (ok false, w'))
normalize_repairs_example = normalize_repairs world

basis : AuthoritativeCurrentBasis
basis = refresh_is_authoritative_example.0

basis_sound_example :
    let r = (commit_screen_refresh (raise_if_stale none) screen_update world).1.runtime in
    (get_authoritative_current_basis r ≡ some basis)
    ↔ ((r.status ≡ ready) × Read r r.current_screen_id r.latest_snapshot r.screen_state basis)
basis_sound_example =
    basis_sound (commit_screen_refresh (raise_if_stale none) screen_update world).1.runtime basis

persisted :
    commit_runtime world
    ≡ (ok tt, record world { state_file = some (record { status = broken; screen_sequence = 2 }) })
unfolding commit_runtime
persisted = refl

restart_is_disconnected_example :
    let r = get_runtime none (some (record { status = broken; screen_sequence = 2 })) in
    let started = record world {
      state_file = some (record { status = broken; screen_sequence = 2 });
      runtime = r;
    } in
    (r.status ≡ status_for_persisted_runtime world.runtime.status)
    × (is_ready r.status ≡ false)
    × (r.screen_sequence ≡ world.runtime.screen_sequence)
    × (r.transport ≡ none)
    × (r.screen_state ≡ none)
    × (normalize_stale_ready_runtime started ≡ (ok false, started))
restart_is_disconnected_example =
    restart_is_disconnected world
      (record world { state_file = some (record { status = broken; screen_sequence = 2 }) })
      persisted

kernel_refines_example :
    SessionStep
      (refresh none screen_update)
      (reports (refresh none screen_update) faulty_world)
      (session_of faulty_world)
      (session_of (step (refresh none screen_update) faulty_world))
kernel_refines_example = kernel_refines (refresh none screen_update) faulty_world

ready_keeps_screen_example :
    has_its_screen (session_of (run (refresh none screen_update ∷ []) world)) ≡ true
unfolding session_of
ready_keeps_screen_example = ready_keeps_screen (refresh none screen_update ∷ []) world refl
