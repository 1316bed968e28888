-- ===== src/Runtime/Leases.antt =====
-- What a lifecycle lease protects: once its revision is over, nothing done under it takes effect.
use androidctl.Prelude.{ℕ, ◌+◌, ◌≤◌, ◌<◌, some, List, [], ◌∷◌, All, ◌≡◌, refl, ◌∙◌, arith}
use androidctl.Runtime.Models.{World}
use androidctl.Runtime.Lifecycle.{
  Lease, is_current, capture_lifecycle_lease, clear_runtime_state, commit_runtime, demote,
  drop_screen, normalize_stale_ready_runtime,
}
use androidctl.Runtime.Kernel.{
  begin_connect, activate_connect, fail_connect, invalidate_device_credentials,
  drop_current_screen_authority, close_runtime, invalidate_runtime,
}
use androidctl.Runtime.Rebootstrap.{commit_transport_rebootstrap}
use androidctl.Runtime.ScreenCommit.{
  attach_screenshot_artifact, commit_screen_refresh, raise_if_stale,
}
use androidctl.Runtime.Operations.{
  Operation, begin, activate, rebootstrap, fail, invalidate_credentials, drop, attach, refresh,
  invalidate, normalize, close, step, run,
}

abbrev pub revision : World → ℕ
revision w = w.runtime.lifecycle_revision

-- No operation turns the revision back.
step-revision : (o : Operation) (w : World) → revision w ≤ revision (step o w)
unfolding step begin_connect activate_connect commit_transport_rebootstrap fail_connect
    invalidate_device_credentials drop_current_screen_authority attach_screenshot_artifact
    commit_screen_refresh invalidate_runtime normalize_stale_ready_runtime close_runtime
    clear_runtime_state commit_runtime drop_screen demote
step-revision (begin lease t) w = ground arith
step-revision _ w = ground arith

pub run-revision : (os : List Operation) (w : World) → revision w ≤ revision (run os w)
unfolding run
run-revision [] w = omega arith
run-revision (o ∷ os) w = omega (arith, step-revision o w, run-revision os (step o w))

-- The operation is one that a holder of the lease asks for.
abbrev pub Holds : Lease → Operation → Type 0
Holds l (begin lease _) = lease ≡ l
Holds l (activate lease _ _) = lease ≡ l
Holds l (rebootstrap lease _) = lease ≡ l
Holds l (fail lease) = lease ≡ l
Holds l (invalidate_credentials lease) = lease ≡ some l
Holds l (drop lease _) = lease ≡ l
Holds l (attach lease _) = lease ≡ l
Holds l (refresh lease _) = lease ≡ some l
Holds l (invalidate lease) = lease ≡ some l
Holds l normalize = ⊥
Holds l close = ⊥

-- Neither the runtime nor the persisted state.
abbrev pub Untouched : World → World → Type 0
Untouched w w' = (w'.runtime ≡ w.runtime) × (w'.state_file ≡ w.state_file)

stale_step :
    (l : Lease) (o : Operation) (w : World)
    → Holds l o
    → l.revision < revision w
    → Untouched w (step o w)
unfolding step begin_connect activate_connect commit_transport_rebootstrap fail_connect
    invalidate_device_credentials drop_current_screen_authority attach_screenshot_artifact
    commit_screen_refresh raise_if_stale invalidate_runtime is_current
stale_step l (begin lease t) w h s = ground arith
stale_step l _ w h s = ground arith

stale_run :
    (l : Lease) (os : List Operation) (w : World)
    → All (Holds l) os
    → l.revision < revision w
    → Untouched w (run os w)
unfolding run
stale_run l [] w h s = (refl, refl)
stale_run l (o ∷ os) w h s =
    let now = stale_step l o w h.0 s in
    let later = stale_run l os (step o w) h.1 (omega (arith, step-revision o w)) in
    (later.0 ∙ now.0, later.1 ∙ now.1)

close-revision : (w : World) → revision (close_runtime w).1 ≡ revision w + 1
unfolding close_runtime clear_runtime_state commit_runtime
close-revision w = ground arith

-- Once the runtime has been closed, whatever else is done afterwards, a run of operations under a
-- lease captured before the close leaves the runtime and the persisted state as they are.
pub closed_lease_is_dead :
    (w : World) (meanwhile late : List Operation)
    → All (Holds (capture_lifecycle_lease w.runtime)) late
    → let w' = run meanwhile (close_runtime w).1 in Untouched w' (run late w')
unfolding capture_lifecycle_lease
closed_lease_is_dead w meanwhile late h =
    stale_run _ late (run meanwhile (close_runtime w).1) h
      (omega (arith, close-revision w, run-revision meanwhile (close_runtime w).1))
