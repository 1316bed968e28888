-- ===== src/Runtime/Kernel.antt =====
-- `RuntimeKernel` of runtime/kernel.py. Each method runs while the runtime's lock is held, and is
-- one function from the world to its result and the new world.
use androidctl.Prelude.{◌+◌, Text, Bool, true, false, Option, none, some, ◌∷◌, if◌then◌else◌, not}
use androidctl.Runtime.Models.{
  Runtime, bootstrapping, connected, broken, closed, RuntimeTransport, BootstrapResult, World, ok,
  err, Run,
}
use androidctl.Runtime.Lifecycle.{
  Lease, is_current, on_runtime, with_status, clear_runtime_state, commit_runtime, drop_screen,
  normalize_stale_ready_runtime,
}

-- `commit_runtime`, then the method's result
abbrev pub committing : {A : Type 0} → A → World → Run A
committing a w = let (r, w') = commit_runtime w in (elim r [ ok _ ↦ ok a | err e ↦ err e ], w')

abbrev pub close_transport : RuntimeTransport → World → World
close_transport t w = record w { closed_transports = t ∷ w.closed_transports }

-- `ensure_runtime`, for a runtime that the store holds
unfoldable pub ensure_runtime : World → Run (Unit {0})
ensure_runtime w =
    let (r, w') = normalize_stale_ready_runtime w in (elim r [ ok _ ↦ ok tt | err e ↦ err e ], w')

unfoldable pub begin_connect : Lease → RuntimeTransport → World → Run Bool
begin_connect lease transport w =
    if not (is_current lease w.runtime)
    then (ok false, w)
    else committing true (
        on_runtime (λ r. record r { transport = some transport; status = bootstrapping })
          (clear_runtime_state w))

unfoldable pub activate_connect : Lease → BootstrapResult → Text → World → Run Bool
activate_connect lease result device_token w =
    if not (is_current lease w.runtime)
    then (ok false, close_transport result.transport w)
    else committing true (
        on_runtime
          (λ r. record r {
            connection = some result.connection;
            transport = some result.transport;
            device_token = some device_token;
            device_capabilities = some result.capabilities;
            status = connected;
          })
          w)

-- `lease is None or lease.is_current(runtime)`
abbrev pub admits : Option Lease → Runtime → Bool
admits none r = true
admits (some lease) r = is_current lease r

unfoldable pub fail_connect : Lease → World → Run Bool
fail_connect lease w =
    if not (is_current lease w.runtime)
    then (ok false, w)
    else committing true (on_runtime (with_status broken) (clear_runtime_state w))

unfoldable pub invalidate_device_credentials : Option Lease → World → Run Bool
invalidate_device_credentials lease w =
    if not (admits lease w.runtime)
    then (ok false, w)
    else committing true (on_runtime (with_status broken) (clear_runtime_state w))

unfoldable pub drop_current_screen_authority : Lease → Bool → World → Run Bool
drop_current_screen_authority lease discard_transport w =
    if not (is_current lease w.runtime)
    then (ok false, w)
    else committing true (drop_screen discard_transport w)

unfoldable pub close_runtime : World → Run (Unit {0})
close_runtime w = committing tt (
    on_runtime (λ r. record r { lifecycle_revision = r.lifecycle_revision + 1; status = closed })
      (clear_runtime_state w))

-- Neither the status nor the persisted state is touched.
unfoldable pub invalidate_runtime : Option Lease → World → Run Bool
invalidate_runtime lease w = if not (admits lease w.runtime) then (ok false, w) else (
  ok true,
  on_runtime (λ r. record r { lifecycle_revision = r.lifecycle_revision + 1 })
      (clear_runtime_state w),
)
