-- ===== src/Runtime/Operations.antt =====
-- The operations of `RuntimeKernel` as steps of the world, in any order and under any lease. What
-- runs between two of them, such as a bootstrap, is a sequence of steps of its own.
use androidctl.Prelude.{Text, Bool, true, is_some, Option, List, [], ◌∷◌}
use androidctl.Runtime.Models.{RuntimeTransport, BootstrapResult, World, Result, ok, err}
use androidctl.Runtime.Refresh.{is_ok}
use androidctl.Runtime.Lifecycle.{Lease, normalize_stale_ready_runtime}
use androidctl.Runtime.Kernel.{
  begin_connect, activate_connect, fail_connect, invalidate_device_credentials,
  drop_current_screen_authority, close_runtime, invalidate_runtime,
}
use androidctl.Runtime.Rebootstrap.{commit_transport_rebootstrap}
use androidctl.Runtime.ScreenCommit.{
  ScreenRefreshUpdate, attach_screenshot_artifact, commit_screen_refresh, raise_if_stale,
}

pub data Operation : Type 0 where
  begin : Lease → RuntimeTransport → Operation
  activate : Lease → BootstrapResult → Text → Operation
  rebootstrap : Lease → BootstrapResult → Operation
  fail : Lease → Operation
  invalidate_credentials : Option Lease → Operation
  drop : Lease → Bool → Operation
  attach : Lease → Text → Operation
  refresh : Option Lease → ScreenRefreshUpdate → Operation
  invalidate : Option Lease → Operation
  normalize : Operation
  close : Operation

unfoldable pub step : Operation → World → World
step (begin lease t) w = (begin_connect lease t w).1
step (activate lease result token) w = (activate_connect lease result token w).1
step (rebootstrap lease result) w = (commit_transport_rebootstrap lease result w).1
step (fail lease) w = (fail_connect lease w).1
step (invalidate_credentials lease) w = (invalidate_device_credentials lease w).1
step (drop lease discard) w = (drop_current_screen_authority lease discard w).1
step (attach lease png) w = (attach_screenshot_artifact lease png w).1
step (refresh lease update) w = (commit_screen_refresh (raise_if_stale lease) update w).1
step (invalidate lease) w = (invalidate_runtime lease w).1
step normalize w = (normalize_stale_ready_runtime w).1
step close w = (close_runtime w).1

unfoldable pub run : List Operation → World → World
unfolding step
run [] w = w
run (o ∷ os) w = run os (step o w)

-- What the result of an operation says it did: one under a lease that is not current returns False or
-- None and does nothing, as does a normalization that finds nothing to do, and a refresh that raises.
abbrev did : Result Bool → Bool
did (ok b) = b
did (err _) = true

abbrev gave : {A : Type 0} → Result (Option A) → Bool
gave (ok o) = is_some o
gave (err _) = true

unfoldable pub reports : Operation → World → Bool
reports (begin lease t) w = did (begin_connect lease t w).0
reports (activate lease result token) w = did (activate_connect lease result token w).0
reports (rebootstrap lease result) w = gave (commit_transport_rebootstrap lease result w).0
reports (fail lease) w = did (fail_connect lease w).0
reports (invalidate_credentials lease) w = did (invalidate_device_credentials lease w).0
reports (drop lease discard) w = did (drop_current_screen_authority lease discard w).0
reports (attach lease png) w = gave (attach_screenshot_artifact lease png w).0
reports (refresh lease update) w = is_ok (commit_screen_refresh (raise_if_stale lease) update w).0
reports (invalidate lease) w = did (invalidate_runtime lease w).0
reports normalize w = did (normalize_stale_ready_runtime w).0
reports close w = true
