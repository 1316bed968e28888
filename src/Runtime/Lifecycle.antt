-- ===== src/Runtime/Lifecycle.antt =====
-- runtime/lifecycle.py, and the helpers of runtime/kernel.py that clear, drop and normalize the
-- runtime's state while its lock is held.
use androidctl.Prelude.{
  ℕ, nat_eq, Bool, true, false, ◌&&◌, is_some, Option, none, some, List, ◌∷◌, if◌then◌else◌, not,
}
use androidctl.Models.Refs.{empty_registry}
use androidctl.Artifacts.Files.{done, raised, mkdir}
use androidctl.Runtime.Models.{
  Runtime, RuntimeStatus, connected, ready, broken, is_ready, RuntimeTransport, RuntimeStateFile,
  World, os_failure, ok, err, Run,
}
use androidctl.Runtime.Screen.{get_authoritative_current_basis}

-- `RuntimeLifecycleLease`
pub record Lease : Type 0 where
  pub revision : ℕ

unfoldable pub is_current : Lease → Runtime → Bool
is_current lease r = nat_eq lease.revision r.lifecycle_revision

unfoldable pub capture_lifecycle_lease : Runtime → Lease
capture_lifecycle_lease r = record { revision = r.lifecycle_revision }

abbrev close : Option RuntimeTransport → List RuntimeTransport → List RuntimeTransport
close none closed = closed
close (some t) closed = t ∷ closed

-- `release_transport`
unfoldable pub release_transport : World → World
release_transport w = record w {
  runtime = record (w.runtime) { transport = none };
  closed_transports = close w.runtime.transport w.closed_transports;
}

-- The assignments that forget the current screen.
abbrev pub forget_screen : Runtime → Runtime
forget_screen r = record r {
  latest_snapshot = none;
  previous_snapshot = none;
  current_screen_id = none;
  screen_state = none;
  ref_registry = empty_registry;
}

abbrev pub forget_device : Runtime → Runtime
forget_device r = record r { connection = none; device_token = none; device_capabilities = none }

abbrev pub with_status : RuntimeStatus → Runtime → Runtime
with_status s r = record r { status = s }

abbrev pub on_runtime : (Runtime → Runtime) → World → World
on_runtime f w = record w { runtime = f w.runtime }

-- `_clear_runtime_state_locked`
unfoldable pub clear_runtime_state : World → World
unfolding release_transport
clear_runtime_state w = on_runtime (λ r. forget_screen (forget_device r)) (release_transport w)

-- `_status_for_persisted_runtime` of runtime/state_repo.py
unfoldable pub status_for_persisted_runtime : RuntimeStatus → RuntimeStatus
status_for_persisted_runtime ready = broken
status_for_persisted_runtime s = s

abbrev pub state_file_of : Runtime → RuntimeStateFile
state_file_of r = record {
  status = status_for_persisted_runtime r.status;
  screen_sequence = r.screen_sequence;
}

-- `RuntimeKernel.commit_runtime`: the directory of the artifacts, then `atomic_write_json`, which
-- leaves the old file when a call of it is refused. It counts as one call.
unfoldable pub commit_runtime : World → Run (Unit {0})
unfolding mkdir status_for_persisted_runtime
commit_runtime w =
    let (r, fs₁) = mkdir w.fs in
    elim r [
      | raised e ↦ (err (os_failure e), record w { fs = fs₁ })
      | done ↦
          let (r', fs₂) = mkdir fs₁ in
          elim r' [
            | raised e ↦ (err (os_failure e), record w { fs = fs₂ })
            | done ↦ (ok tt, record w { fs = fs₂; state_file = some (state_file_of w.runtime) })
          ]
    ]

-- `transport`, `connection` and `device_token` are all there.
unfoldable pub has_device : Runtime → Bool
has_device r = is_some r.transport && is_some r.connection && is_some r.device_token

unfoldable pub has_live_public_screen : Runtime → Bool
unfolding has_device
has_live_public_screen r = has_device r && is_some (get_authoritative_current_basis r)

-- What `normalize_stale_ready_runtime` does to a runtime that is ready and has no live screen.
unfoldable pub demote : World → World
unfolding has_device release_transport
demote w =
    if has_device w.runtime
    then on_runtime (λ r. with_status connected (forget_screen r)) w
    else on_runtime (λ r. with_status broken (forget_device r))
        (release_transport (on_runtime forget_screen w))

-- `normalize_stale_ready_runtime` with the kernel's `commit_runtime` as its `persist`; the lock is
-- reentrant.
unfoldable pub normalize_stale_ready_runtime : World → Run Bool
unfolding has_live_public_screen demote
normalize_stale_ready_runtime w =
    if not (is_ready w.runtime.status)
    then (ok false, w)
    else if has_live_public_screen w.runtime
    then (ok false, w)
    else let (r, w') = commit_runtime (demote w) in (elim r [ ok _ ↦ ok true | err e ↦ err e ], w')

-- `_drop_current_screen_authority_locked`
unfoldable pub drop_screen : Bool → World → World
unfolding release_transport
drop_screen discard_transport w =
    let w₁ = on_runtime forget_screen w in
    if is_some w.runtime.connection && is_some w.runtime.device_token
    then on_runtime (with_status connected) (
        if discard_transport
        then on_runtime (λ r. record r { device_capabilities = none }) (release_transport w₁)
        else w₁)
    else on_runtime (λ r. with_status broken (forget_device r)) (release_transport w₁)
