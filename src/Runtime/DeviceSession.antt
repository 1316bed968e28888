-- ===== src/Runtime/DeviceSession.antt =====
-- The device session that `RuntimeKernel` of runtime/kernel.py keeps, as an abstract machine: a runtime
-- apart from its snapshots, artifacts and files. The steps are those of one operation each.
use androidctl.Prelude.{
  ℕ, ◌+◌, nat_eq, Text, Bool, true, false, ◌&&◌, ◌||◌, not, is_some, Option, none, some, ◌≡◌,
}
use androidctl.Runtime.Models.{
  RuntimeStatus, bootstrapping, connected, ready, broken, closed, is_ready, RuntimeTransport,
  BootstrapResult, World,
}
use androidctl.Runtime.Lifecycle.{Lease}
use androidctl.Runtime.ScreenCommit.{ScreenRefreshUpdate}
use androidctl.Runtime.Operations.{
  Operation, begin, activate, rebootstrap, fail, invalidate_credentials, drop, attach, refresh,
  invalidate, normalize, close,
}

-- The session: `known` says that there is a connection, `trusted` that there is a device token.
pub record Session : Type 0 where
  pub status : RuntimeStatus
  pub revision : ℕ
  pub link : Option RuntimeTransport
  pub known : Bool
  pub trusted : Bool
  pub screen : Option Text
  pub sequence : ℕ

-- The sessions that the steps lead to.
abbrev pub linked : RuntimeTransport → Session → Session
linked t s = record s {
  status = bootstrapping;
  link = some t;
  known = false;
  trusted = false;
  screen = none;
}

abbrev pub activated : RuntimeTransport → Session → Session
activated t s = record s { status = connected; link = some t; known = true; trusted = true }

abbrev pub unpaired : Session → Session
unpaired s = record s { link = none; known = false; trusted = false; screen = none }

abbrev pub lost : Session → Session
lost s = record (unpaired s) { status = broken }

-- Without its screen, and without its transport where that is discarded.
abbrev pub dropped : Bool → Session → Session
dropped true s = record s { status = connected; link = none; screen = none }
dropped false s = record s { status = connected; screen = none }

abbrev pub shown : Text → ℕ → Session → Session
shown id n s = record s { status = ready; screen = some id; sequence = n }

abbrev pub invalidated : Session → Session
invalidated s = record (unpaired s) { revision = s.revision + 1 }

abbrev pub ended : Session → Session
ended s = record (invalidated s) { status = closed }

-- The lease of an operation is of the session's revision; a normalization needs a ready session.
abbrev pub holds : Lease → Session → Bool
holds lease s = nat_eq lease.revision s.revision

abbrev pub holds_if_given : Option Lease → Session → Bool
holds_if_given none s = true
holds_if_given (some lease) s = holds lease s

abbrev pub may : Operation → Session → Bool
may (begin lease _) s = holds lease s
may (activate lease _ _) s = holds lease s
may (rebootstrap lease _) s = holds lease s
may (fail lease) s = holds lease s
may (invalidate_credentials lease) s = holds_if_given lease s
may (drop lease _) s = holds lease s
may (attach lease _) s = holds lease s
may (refresh lease _) s = holds_if_given lease s
may (invalidate lease) s = holds_if_given lease s
may normalize s = is_ready s.status
may close s = true

abbrev pub paired : Session → Bool
paired s = s.known && s.trusted

abbrev pub has_all : Session → Bool
has_all s = is_some s.link && s.known && s.trusted

-- When an operation may do nothing: a refresh can always be refused a call, and a normalization leaves
-- a live screen alone.
abbrev pub may_stay : Operation → Session → Bool
may_stay (refresh _ _) s = true
may_stay normalize s = not (is_ready s.status) || (has_all s && is_some s.screen)
may_stay o s = not (may o s)

-- The abstract steps of an operation that reports whether it did something. A refresh can raise after
-- its commit, when it discards its staged files, so that `shows` takes any report.
pub data SessionStep : Operation → Bool → Session → Session → Type 0 where
  stays : {o : Operation} {s : Session} → may_stay o s ≡ true → SessionStep o false s s
  begins :
      {lease : Lease} {t : RuntimeTransport} {s : Session}
      → may (begin lease t) s ≡ true
      → SessionStep (begin lease t) true s (linked t s)
  activates :
      {lease : Lease} {result : BootstrapResult} {token : Text} {s : Session}
      → may (activate lease result token) s ≡ true
      → SessionStep (activate lease result token) true s (activated result.transport s)
  relinks :
      {lease : Lease} {result : BootstrapResult} {s : Session}
      → may (rebootstrap lease result) s ≡ true
      → s.link ≡ none
      → SessionStep
          (rebootstrap lease result)
          true
          s
          (record s { link = some result.transport; known = true })
  keeps_link :
      {lease : Lease} {result : BootstrapResult} {s : Session}
      → may (rebootstrap lease result) s ≡ true
      → is_some s.link ≡ true
      → SessionStep (rebootstrap lease result) true s s
  fails :
      {lease : Lease} {s : Session}
      → may (fail lease) s ≡ true
      → SessionStep (fail lease) true s (lost s)
  loses_credentials :
      {lease : Option Lease} {s : Session}
      → may (invalidate_credentials lease) s ≡ true
      → SessionStep (invalidate_credentials lease) true s (lost s)
  drops :
      {lease : Lease} {discard : Bool} {s : Session}
      → may (drop lease discard) s ≡ true
      → paired s ≡ true
      → SessionStep (drop lease discard) true s (dropped discard s)
  drops_all :
      {lease : Lease} {discard : Bool} {s : Session}
      → may (drop lease discard) s ≡ true
      → paired s ≡ false
      → SessionStep (drop lease discard) true s (lost s)
  attaches :
      {lease : Lease} {png : Text} {s : Session}
      → may (attach lease png) s ≡ true
      → SessionStep (attach lease png) true s s
  shows :
      {lease : Option Lease} {update : ScreenRefreshUpdate} {b : Bool} {s : Session}
      → may (refresh lease update) s ≡ true
      → SessionStep
          (refresh lease update)
          b
          s
          (shown update.public_screen.screen_id update.sequence s)
  invalidates :
      {lease : Option Lease} {s : Session}
      → may (invalidate lease) s ≡ true
      → SessionStep (invalidate lease) true s (invalidated s)
  demotes :
      {s : Session}
      → may normalize s ≡ true
      → has_all s ≡ true
      → SessionStep normalize true s (dropped false s)
  demotes_all :
      {s : Session}
      → may normalize s ≡ true
      → has_all s ≡ false
      → SessionStep normalize true s (lost s)
  closes : {s : Session} → SessionStep close true s (ended s)

-- The session of a runtime.
unfoldable pub session_of : World → Session
session_of w = record {
  status = w.runtime.status;
  revision = w.runtime.lifecycle_revision;
  link = w.runtime.transport;
  known = is_some w.runtime.connection;
  trusted = is_some w.runtime.device_token;
  screen = w.runtime.current_screen_id;
  sequence = w.runtime.screen_sequence;
}
