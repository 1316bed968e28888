-- ===== src/Runtime/Transports.antt =====
-- No transport is lost: every transport that the kernel has been given is the runtime's or has been
-- closed.
use mathlib.Core.List.{Perm}
use mathlib.Core.List.Perm
use androidctl.Prelude.{
  Text, Bool, true, false, Option, none, some, List, [], ◌∷◌, ◌++◌, ◌≡◌, sym, subst, arith,
  if◌then◌else◌, Option-cases, inl, inr,
}
use androidctl.Runtime.Models.{World, RuntimeTransport, BootstrapResult}
use androidctl.Runtime.Lifecycle.{
  Lease, is_current, clear_runtime_state, commit_runtime, demote, drop_screen,
  normalize_stale_ready_runtime,
}
use androidctl.Runtime.Kernel.{
  begin_connect, activate_connect, fail_connect, invalidate_device_credentials,
  drop_current_screen_authority, close_runtime, invalidate_runtime,
}
use androidctl.Runtime.Rebootstrap.{commit_transport_rebootstrap}
use androidctl.Runtime.ScreenCommit.{attach_screenshot_artifact, commit_screen_refresh}
use androidctl.Runtime.Operations.{Operation, begin, activate, rebootstrap, step}

abbrev pub current : Option RuntimeTransport → List RuntimeTransport
current none = []
current (some t) = t ∷ []

-- The runtime's transport and those that have been closed, as often as they were closed.
abbrev pub held : World → List RuntimeTransport
held w = current w.runtime.transport ++ w.closed_transports

-- The transport that the operation hands to the kernel. A stale `begin_connect` does not take it:
-- its caller closes it.
abbrev pub handed : World → Operation → List RuntimeTransport
handed w (begin lease t) = if is_current lease w.runtime then t ∷ [] else []
handed w (rebootstrap lease result) = result.transport ∷ []
handed w _ = []

-- `activate_connect` is given the transport that `begin_connect` took.
abbrev pub is_activate : Operation → Bool
is_activate (activate _ _ _) = true
is_activate _ = false

abbrev is_rebootstrap : Operation → Bool
is_rebootstrap (rebootstrap _ _) = true
is_rebootstrap _ = false

-- Every operation but a bootstrap keeps the list itself.
step-held :
    (o : Operation) (w : World)
    → is_activate o ≡ false
    → is_rebootstrap o ≡ false
    → held (step o w) ≡ handed w o ++ held w
unfolding step begin_connect fail_connect invalidate_device_credentials
    drop_current_screen_authority attach_screenshot_artifact commit_screen_refresh
    invalidate_runtime normalize_stale_ready_runtime close_runtime clear_runtime_state
    commit_runtime drop_screen demote
step-held (activate lease result token) w h n = cc
step-held (rebootstrap lease result) w h n = cc
step-held (begin lease t) w h n = ground arith
step-held _ w h n = ground arith

module _ (lease : Lease) (result : BootstrapResult) (w : World) where
  rebootstrap_without :
      w.runtime.transport ≡ none
      → held (commit_transport_rebootstrap lease result w).1 ≡ result.transport ∷ held w
  unfolding commit_transport_rebootstrap commit_runtime
  rebootstrap_without e = ground arith

  rebootstrap_with :
      (t : RuntimeTransport)
      → w.runtime.transport ≡ some t
      → held (commit_transport_rebootstrap lease result w).1
        ≡ t ∷ result.transport ∷ w.closed_transports
  unfolding commit_transport_rebootstrap commit_runtime
  rebootstrap_with t e = ground arith

  rebootstrap-held :
      Perm (held (commit_transport_rebootstrap lease result w).1) (result.transport ∷ held w)
  rebootstrap-held = elim (Option-cases w.runtime.transport) [
    | inl e ↦ rw (rebootstrap_without e) (Perm.refl _)
    | inr (t, e) ↦ rw (rebootstrap_with t e) (
        subst
          (λ c.
            Perm (t ∷ result.transport ∷ w.closed_transports)
              (result.transport ∷ current c ++ w.closed_transports))
          (sym e) (Perm.swap result.transport t w.closed_transports))
  ]

-- Each operation but `activate_connect`, under any lease and whatever file calls are refused, keeps
-- the transports that it was handed and those held before: none is lost and none is made up.
pub transports_conserved :
    (o : Operation) (w : World)
    → is_activate o ≡ false
    → Perm (held (step o w)) (handed w o ++ held w)
unfolding step
transports_conserved (rebootstrap lease result) w h = rebootstrap-held lease result w
transports_conserved (activate lease result token) w h = absurd (ground arith)
transports_conserved o w h = rw (step-held o w h (ground arith)) (Perm.refl _)

-- Activating with the transport that the runtime has keeps the list of transports, and otherwise,
-- under a stale lease, closes the one that it is given.
pub activate-held :
    (lease : Lease) (result : BootstrapResult) (token : Text) (w : World)
    → w.runtime.transport ≡ some result.transport
    → held (activate_connect lease result token w).1 ≡ (
        if is_current lease w.runtime
        then held w
        else result.transport ∷ result.transport ∷ w.closed_transports)
unfolding activate_connect commit_runtime
activate-held lease result token w e = ground arith
