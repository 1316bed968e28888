-- ===== src/Runtime/Session.antt =====
-- The operations of `RuntimeKernel` (runtime/kernel.py) take steps of the abstract device session.
use androidctl.Prelude.{
  Text, Bool, true, false, ◌&&◌, ◌||◌, not, is_some, Option, List, [], ◌∷◌, ◌≡◌, inl, inr, refl,
  sym, ap, subst, arith, Bool-cases, Option-cases,
}
use androidctl.Runtime.Models.{Runtime, is_ready, RuntimeTransport, BootstrapResult, World}
use androidctl.Runtime.DeviceSession.{
  Session, SessionStep, stays, begins, activates, relinks, keeps_link, fails, loses_credentials,
  drops, drops_all, attaches, shows, invalidates, demotes, demotes_all, closes, session_of, paired,
  has_all,
}
use androidctl.Runtime.Screen.{check_state, get_authoritative_current_basis}
use androidctl.Runtime.Refresh.{refresh_all_or_nothing}
use androidctl.Runtime.Lifecycle.{
  Lease, is_current, has_live_public_screen, clear_runtime_state, commit_runtime, demote,
  drop_screen, has_device, normalize_stale_ready_runtime,
}
use androidctl.Runtime.Kernel.{
  admits, begin_connect, activate_connect, fail_connect, invalidate_device_credentials,
  drop_current_screen_authority, close_runtime, invalidate_runtime,
}
use androidctl.Runtime.Rebootstrap.{commit_transport_rebootstrap}
use androidctl.Runtime.ScreenCommit.{
  ScreenRefreshUpdate, attach_screenshot_artifact, commit_refresh_locked, commit_screen_refresh,
  raise_if_stale,
}
use androidctl.Runtime.Operations.{
  Operation, begin, activate, rebootstrap, fail, invalidate_credentials, drop, attach, refresh,
  invalidate, normalize, close, step, reports, run,
}

-- An operation takes a step of the abstract session.
abbrev Refines : Operation → World → Type 0
Refines o w = SessionStep o (reports o w) (session_of w) (session_of (step o w))

-- A step whose report and session are known.
to_step :
    (o : Operation) (b b' : Bool) (s t t' : Session)
    → b ≡ b'
    → t ≡ t'
    → SessionStep o b' s t'
    → SessionStep o b s t
to_step o b b' s t t' e k h =
    subst (λ c. SessionStep o c s t) (sym e) (subst (SessionStep o b' s) (sym k) h)

begin_step : (lease : Lease) (t : RuntimeTransport) (w : World) → Refines (begin lease t) w
unfolding session_of reports step is_current begin_connect clear_runtime_state commit_runtime
begin_step lease t w = elim (Bool-cases (is_current lease w.runtime)) [
  | inl h ↦ to_step _ _ _ _ _ _ (ground arith) (ground arith) (begins (ground arith))
  | inr h ↦ to_step _ _ _ _ _ _ (ground arith) (ground arith) (stays (ground arith))
]

activate_step :
    (lease : Lease) (result : BootstrapResult) (token : Text) (w : World)
    → Refines (activate lease result token) w
unfolding session_of reports step is_current activate_connect commit_runtime
activate_step lease result token w = elim (Bool-cases (is_current lease w.runtime)) [
  | inl h ↦ to_step _ _ _ _ _ _ (ground arith) (ground arith) (activates (ground arith))
  | inr h ↦ to_step _ _ _ _ _ _ (ground arith) (ground arith) (stays (ground arith))
]

rebootstrap_step :
    (lease : Lease) (result : BootstrapResult) (w : World) → Refines (rebootstrap lease result) w
unfolding session_of reports step is_current commit_transport_rebootstrap commit_runtime
rebootstrap_step lease result w = elim (Bool-cases (is_current lease w.runtime)) [
  | inl h ↦ elim (Option-cases w.runtime.transport) [
    | inl e ↦ to_step _ _ _ _ _ _ (ground arith) (ground arith) (relinks (ground arith) e)
    | inr (t, e) ↦
        to_step _ _ _ _ _ _ (ground arith) (ground arith) (keeps_link (ground arith) (ground arith))
  ]
  | inr h ↦ to_step _ _ _ _ _ _ (ground arith) (ground arith) (stays (ground arith))
]

fail_step : (lease : Lease) (w : World) → Refines (fail lease) w
unfolding session_of reports step is_current fail_connect clear_runtime_state commit_runtime
fail_step lease w = elim (Bool-cases (is_current lease w.runtime)) [
  | inl h ↦ to_step _ _ _ _ _ _ (ground arith) (ground arith) (fails (ground arith))
  | inr h ↦ to_step _ _ _ _ _ _ (ground arith) (ground arith) (stays (ground arith))
]

credentials_step : (lease : Option Lease) (w : World) → Refines (invalidate_credentials lease) w
unfolding session_of reports step is_current invalidate_device_credentials clear_runtime_state
    commit_runtime
credentials_step lease w = elim (Bool-cases (admits lease w.runtime)) [
  | inl h ↦ to_step _ _ _ _ _ _ (ground arith) (ground arith) (loses_credentials (ground arith))
  | inr h ↦ to_step _ _ _ _ _ _ (ground arith) (ground arith) (stays (ground arith))
]

drop_step : (lease : Lease) (discard : Bool) (w : World) → Refines (drop lease discard) w
unfolding session_of reports step is_current drop_current_screen_authority drop_screen
    commit_runtime
drop_step lease discard w = elim (Bool-cases (is_current lease w.runtime)) [
  | inl h ↦ elim (Bool-cases (paired (session_of w))) [
    | inl k ↦
        to_step _ _ _ _ _ _ (ground arith) (ground arith) (drops (ground arith) (ground arith))
    | inr k ↦
        to_step _ _ _ _ _ _ (ground arith) (ground arith) (drops_all (ground arith) (ground arith))
  ]
  | inr h ↦ to_step _ _ _ _ _ _ (ground arith) (ground arith) (stays (ground arith))
]

attach_step : (lease : Lease) (png : Text) (w : World) → Refines (attach lease png) w
unfolding session_of reports step is_current attach_screenshot_artifact
attach_step lease png w = elim (Bool-cases (is_current lease w.runtime)) [
  | inl h ↦ to_step _ _ _ _ _ _ (ground arith) (ground arith) (attaches (ground arith))
  | inr h ↦ to_step _ _ _ _ _ _ (ground arith) (ground arith) (stays (ground arith))
]

stale_refresh :
    (lease : Option Lease) (update : ScreenRefreshUpdate) (w : World)
    → admits lease w.runtime ≡ false
    → Refines (refresh lease update) w
unfolding session_of reports step commit_screen_refresh raise_if_stale
stale_refresh lease update w h = to_step _ _ _ _ _ _ (ground arith) (ground arith) (stays refl)

admitted_refresh :
    (lease : Option Lease) (update : ScreenRefreshUpdate) (w : World)
    → admits lease w.runtime ≡ true
    → Refines (refresh lease update) w
unfolding session_of reports step is_current commit_refresh_locked
admitted_refresh lease update w h =
    let of_runtime : Runtime → Session = λ r. session_of (record w { runtime = r }) in
    elim (refresh_all_or_nothing (raise_if_stale lease) update w) [
      | inl k ↦ to_step _ _ _ _ _ _ k.0 (ap of_runtime k.1) (stays refl)
      | inr k ↦ to_step _ _ _ _ _ _ refl (ap of_runtime k.0) (shows (ground arith))
    ]

refresh_step :
    (lease : Option Lease) (update : ScreenRefreshUpdate) (w : World)
    → Refines (refresh lease update) w
refresh_step lease update w = elim (Bool-cases (admits lease w.runtime)) [
  | inl h ↦ admitted_refresh lease update w h
  | inr h ↦ stale_refresh lease update w h
]

invalidate_step : (lease : Option Lease) (w : World) → Refines (invalidate lease) w
unfolding session_of reports step is_current invalidate_runtime clear_runtime_state
invalidate_step lease w = elim (Bool-cases (admits lease w.runtime)) [
  | inl h ↦ to_step _ _ _ _ _ _ (ground arith) (ground arith) (invalidates (ground arith))
  | inr h ↦ to_step _ _ _ _ _ _ (ground arith) (ground arith) (stays (ground arith))
]

close_step : (w : World) → Refines close w
unfolding session_of reports step close_runtime clear_runtime_state commit_runtime
close_step w = to_step _ _ _ _ _ _ refl (ground arith) closes

-- A normalization that finds nothing to do.
live_stays :
    (w : World)
    → has_live_public_screen w.runtime ≡ true
    → (has_all (session_of w) && is_some (session_of w).screen) ≡ true
unfolding session_of has_live_public_screen has_device get_authoritative_current_basis check_state
live_stays w h = ground arith

normalize_step : (w : World) → Refines normalize w
unfolding session_of reports step normalize_stale_ready_runtime demote has_device commit_runtime
normalize_step w = elim (Bool-cases (is_ready w.runtime.status)) [
  | inl h ↦ elim (Bool-cases (has_live_public_screen w.runtime)) [
    | inl k ↦
        to_step _ _ _ _ _ _ (ground arith) (ground arith) (stays (ground (arith, live_stays w k)))
    | inr k ↦ elim (Bool-cases (has_all (session_of w))) [
      | inl all ↦ to_step _ _ _ _ _ _ (ground arith) (ground arith) (demotes h all)
      | inr gone ↦ to_step _ _ _ _ _ _ (ground arith) (ground arith) (demotes_all h gone)
    ]
  ]
  | inr h ↦ to_step _ _ _ _ _ _ (ground arith) (ground arith) (stays (ground arith))
]

-- Every operation of the kernel, whatever file calls are refused, takes the abstract session's step
-- of that operation, as its result reports: where it reports that it did something, a lease that it
-- takes is current and the session is the one that the operation leads to; where it reports that it
-- did nothing, its lease is not current, or it normalizes a session that is not ready or has all of
-- a live one, and the session is as it was. A refresh that raises leaves the session, or has shown
-- its screen.
pub kernel_refines :
    (o : Operation) (w : World) → SessionStep o (reports o w) (session_of w) (session_of (step o w))
kernel_refines (begin lease t) w = begin_step lease t w
kernel_refines (activate lease result token) w = activate_step lease result token w
kernel_refines (rebootstrap lease result) w = rebootstrap_step lease result w
kernel_refines (fail lease) w = fail_step lease w
kernel_refines (invalidate_credentials lease) w = credentials_step lease w
kernel_refines (drop lease discard) w = drop_step lease discard w
kernel_refines (attach lease png) w = attach_step lease png w
kernel_refines (refresh lease update) w = refresh_step lease update w
kernel_refines (invalidate lease) w = invalidate_step lease w
kernel_refines normalize w = normalize_step w
kernel_refines close w = close_step w

-- A session that is ready and trusted has a screen.
abbrev pub has_its_screen : Session → Bool
has_its_screen s = not (is_ready s.status && s.trusted) || is_some s.screen

step_keeps_screen :
    (o : Operation) (b : Bool) (s t : Session)
    → SessionStep o b s t
    → has_its_screen s ≡ true
    → has_its_screen t ≡ true
step_keeps_screen o b s t (stays _) h = h
step_keeps_screen o b s t (begins _) h = refl
step_keeps_screen o b s t (activates _) h = refl
step_keeps_screen o b s t (relinks _ _) h = h
step_keeps_screen o b s t (keeps_link _ _) h = h
step_keeps_screen o b s t (fails _) h = refl
step_keeps_screen o b s t (loses_credentials _) h = refl
step_keeps_screen o b s t (drops {discard = true} _ _) h = refl
step_keeps_screen o b s t (drops {discard = false} _ _) h = refl
step_keeps_screen o b s t (drops_all _ _) h = refl
step_keeps_screen o b s t (attaches _) h = h
step_keeps_screen o b s t (shows _) h = ground arith
step_keeps_screen o b s t (invalidates _) h = ground arith
step_keeps_screen o b s t (demotes _ _) h = refl
step_keeps_screen o b s t (demotes_all _ _) h = refl
step_keeps_screen o b s t closes h = refl

-- Any run of operations keeps it that a runtime which is ready and has a device token has a current
-- screen id.
pub ready_keeps_screen :
    (os : List Operation) (w : World)
    → has_its_screen (session_of w) ≡ true
    → has_its_screen (session_of (run os w)) ≡ true
unfolding run
ready_keeps_screen [] w h = h
ready_keeps_screen (o ∷ os) w h = ready_keeps_screen os (step o w) (
    step_keeps_screen o (reports o w) (session_of w) (session_of (step o w)) (kernel_refines o w) h)
