-- ===== src/Runtime/Authority.antt =====
-- When the runtime has an authoritative current screen: `get_authoritative_current_basis` of
-- runtime/screen_state.py after the kernel's operations.
use androidctl.Prelude.{
  Text, text_eq_iff, text_eq_refl, opt_text_eq_iff, nonempty, true, false, ◌||◌, not, Option, none,
  some, ◌≡◌, ◌↔◌, refl, arith,
}
use androidctl.Models.Snapshots.{RawSnapshot}
use androidctl.Models.Semantic.{CompiledScreen}
use androidctl.Models.Public.{PublicScreen}
use androidctl.Runtime.Models.{Runtime, World, Failure, ok, ScreenState, is_ready, ready}
use androidctl.Runtime.Screen.{
  AuthoritativeCurrentBasis, agrees, basis_of, check_screens, check_state,
  get_authoritative_current_basis,
}
use androidctl.Runtime.Lifecycle.{
  commit_runtime, demote, has_live_public_screen, normalize_stale_ready_runtime,
}
use androidctl.Runtime.Refresh.{refresh_all_or_nothing}
use androidctl.Runtime.ScreenCommit.{
  ScreenRefreshUpdate, commit_refresh_locked, commit_screen_refresh,
}

-- The screens of an update come from its snapshot.
pub record IsConsistent (u : ScreenRefreshUpdate) : Type 0 where
  pub named : nonempty u.public_screen.screen_id ≡ true
  pub same_id : u.compiled_screen.screen_id ≡ u.public_screen.screen_id
  pub source : u.compiled_screen.source_snapshot_id ≡ u.snapshot.snapshot_id
  pub in_order : u.compiled_screen.sequence ≡ u.sequence
  pub captured : u.compiled_screen.captured_at ≡ u.snapshot.captured_at
  pub in_package : u.compiled_screen.package_name ≡ u.snapshot.package_name
  pub in_activity : u.compiled_screen.activity_name ≡ u.snapshot.activity_name
  pub public_package : u.public_screen.app.package_name ≡ u.snapshot.package_name
  pub public_activity : u.public_screen.app.activity_name ≡ u.snapshot.activity_name

agrees_refreshed :
    (u : ScreenRefreshUpdate) (p : Option RawSnapshot) (r : Runtime)
    → IsConsistent u
    → agrees
        (commit_refresh_locked u p r)
        u.public_screen.screen_id
        u.snapshot
        u.public_screen
        u.compiled_screen
      ≡ true
unfolding agrees commit_refresh_locked
agrees_refreshed u p r c = ground (
  arith,
  c.same_id,
  text_eq_refl u.public_screen.screen_id,
  text_eq_iff u.compiled_screen.screen_id u.public_screen.screen_id,
  text_eq_iff u.compiled_screen.captured_at u.snapshot.captured_at,
  opt_text_eq_iff u.compiled_screen.package_name u.snapshot.package_name,
  opt_text_eq_iff u.compiled_screen.activity_name u.snapshot.activity_name,
  opt_text_eq_iff u.public_screen.app.package_name u.snapshot.package_name,
  opt_text_eq_iff u.public_screen.app.activity_name u.snapshot.activity_name,
)

refreshed_basis :
    (u : ScreenRefreshUpdate) (p : Option RawSnapshot) (r : Runtime)
    → IsConsistent u
    → get_authoritative_current_basis (commit_refresh_locked u p r)
      ≡ some (
          basis_of
            (commit_refresh_locked u p r)
            u.public_screen.screen_id
            u.snapshot
            u.public_screen
            u.compiled_screen
            (some u.artifacts))
unfolding get_authoritative_current_basis check_state check_screens commit_refresh_locked
refreshed_basis u p r c = rw (c.named) (rw (agrees_refreshed u p r c))

refreshed_runtime :
    (pre_commit : Runtime → Option Failure) (u : ScreenRefreshUpdate) (w : World)
    → (commit_screen_refresh pre_commit u w).0 ≡ ok tt
    → (commit_screen_refresh pre_commit u w).1.runtime
      ≡ commit_refresh_locked u w.runtime.latest_snapshot w.runtime
refreshed_runtime pre_commit u w h = ground (arith, refresh_all_or_nothing pre_commit u w)

-- After a refresh with consistent screens that returns, the runtime's authoritative basis is the
-- refreshed screen, under the update's sequence.
pub refresh_is_authoritative :
    (pre_commit : Runtime → Option Failure) (u : ScreenRefreshUpdate) (w : World)
    → IsConsistent u
    → (commit_screen_refresh pre_commit u w).0 ≡ ok tt
    → (b : AuthoritativeCurrentBasis) × (get_authoritative_current_basis
          (commit_screen_refresh pre_commit u w).1.runtime
        ≡ some b)
      × (b.screen_id ≡ u.public_screen.screen_id)
      × (b.screen_sequence ≡ u.sequence)
      × (b.snapshot_id ≡ u.snapshot.snapshot_id)
      × (b.public_screen ≡ u.public_screen)
      × (b.compiled_screen ≡ u.compiled_screen)
refresh_is_authoritative pre_commit u w c h = (
  basis_of (commit_refresh_locked u w.runtime.latest_snapshot w.runtime) u.public_screen.screen_id
      u.snapshot u.public_screen u.compiled_screen (some u.artifacts),
  rw (refreshed_runtime pre_commit u w h) (refreshed_basis u w.runtime.latest_snapshot w.runtime c),
  refl,
  (unfold commit_refresh_locked in refl),
  refl,
  refl,
  refl,
)

-- The screens and the snapshot agree.
pub record IsAgreed (r : Runtime) (id : Text) (sn : RawSnapshot) (p : PublicScreen)
    (c : CompiledScreen) : Type 0 where
  pub public_id : p.screen_id ≡ id
  pub compiled_id : c.screen_id ≡ id
  pub source : c.source_snapshot_id ≡ sn.snapshot_id
  pub in_order : c.sequence ≡ r.screen_sequence
  pub captured : c.captured_at ≡ sn.captured_at
  pub in_package : c.package_name ≡ sn.package_name
  pub in_activity : c.activity_name ≡ sn.activity_name
  pub public_package : p.app.package_name ≡ sn.package_name
  pub public_activity : p.app.activity_name ≡ sn.activity_name

module _ (r : Runtime) (id : Text) (sn : RawSnapshot) (p : PublicScreen) (c : CompiledScreen) where
  IsAgreed-agrees : IsAgreed r id sn p c → agrees r id sn p c ≡ true
  unfolding agrees
  IsAgreed-agrees h = ground (
    arith,
    h.public_id,
    h.compiled_id,
    h.source,
    h.in_order,
    h.captured,
    h.in_package,
    h.in_activity,
    h.public_package,
    h.public_activity,
    text_eq_iff p.screen_id id,
    text_eq_iff c.screen_id id,
    text_eq_iff c.captured_at sn.captured_at,
    opt_text_eq_iff c.package_name sn.package_name,
    opt_text_eq_iff c.activity_name sn.activity_name,
    opt_text_eq_iff p.app.package_name sn.package_name,
    opt_text_eq_iff p.app.activity_name sn.activity_name,
  )

  agrees-IsAgreed : agrees r id sn p c ≡ true → IsAgreed r id sn p c
  unfolding agrees
  agrees-IsAgreed h = record {
    public_id = (text_eq_iff p.screen_id id).0 (ground arith);
    compiled_id = (text_eq_iff c.screen_id id).0 (ground arith);
    source = ground arith;
    in_order = ground arith;
    captured = (text_eq_iff c.captured_at sn.captured_at).0 (ground arith);
    in_package = (opt_text_eq_iff c.package_name sn.package_name).0 (ground arith);
    in_activity = (opt_text_eq_iff c.activity_name sn.activity_name).0 (ground arith);
    public_package = (opt_text_eq_iff p.app.package_name sn.package_name).0 (ground arith);
    public_activity = (opt_text_eq_iff p.app.activity_name sn.activity_name).0 (ground arith);
  }

-- What a basis is read off, for a runtime with this id, this snapshot and this state.
abbrev pub Read :
    Runtime
    → Option Text
    → Option RawSnapshot
    → Option ScreenState
    → AuthoritativeCurrentBasis
    → Type 0
Read r known latest state b =
    (id : Text) × (sn : RawSnapshot) × (s : ScreenState) × (p : PublicScreen) × (c : CompiledScreen)
    × (known ≡ some id)
    × (nonempty id ≡ true)
    × (latest ≡ some sn)
    × (state ≡ some s)
    × (s.public_screen ≡ some p)
    × (s.compiled_screen ≡ some c)
    × IsAgreed r id sn p c
    × (b ≡ basis_of r id sn p c s.artifacts)

module _ (r : Runtime) (b : AuthoritativeCurrentBasis) where
  screens-Read :
      (id : Text) (sn : RawSnapshot) (s : ScreenState) (p : Option PublicScreen)
      (c : Option CompiledScreen)
      → nonempty id ≡ true
      → s.public_screen ≡ p
      → s.compiled_screen ≡ c
      → check_screens r id sn p c s.artifacts ≡ some b
      → Read r (some id) (some sn) (some s) b
  unfolding check_screens
  screens-Read id sn s (some p) (some c) named ep ec h = (
    id,
    sn,
    s,
    p,
    c,
    refl,
    named,
    refl,
    refl,
    ep,
    ec,
    agrees-IsAgreed r id sn p c (ground arith),
    ground arith,
  )
  screens-Read id sn s none c named ep ec h = absurd cc
  screens-Read id sn s (some p) none named ep ec h = absurd cc

  state-Read :
      (known : Option Text) (latest : Option RawSnapshot) (state : Option ScreenState)
      → check_state r known latest state ≡ some b
      → Read r known latest state b
  unfolding check_state
  state-Read (some id) (some sn) (some s) h =
      screens-Read id sn s s.public_screen s.compiled_screen (ground arith) refl refl (ground arith)
  state-Read none latest state h = absurd cc
  state-Read (some id) none state h = absurd cc
  state-Read (some id) (some sn) none h = absurd cc

  basis_known :
      r.status ≡ ready
      → Read r r.current_screen_id r.latest_snapshot r.screen_state b
      → get_authoritative_current_basis r ≡ some b
  unfolding get_authoritative_current_basis check_state check_screens agrees
  basis_known h (id, sn, s, p, c, known, named, latest, state, public, compiled, agreed, same) =
      rw (h) (
        rw (known) (
          rw (latest) (
            rw (state) (
              rw (named) (
                rw (public)
                  (rw (compiled) (rw (IsAgreed-agrees r id sn p c agreed) (rw (same) refl))))))))

-- A basis is what is read off a ready runtime with a nonempty current screen id, a snapshot and two
-- screens, where both screens have that id, the compiled one comes from that snapshot, under the
-- runtime's sequence and the snapshot's time, and the package and activity of both are the snapshot's;
-- and such a runtime has that basis.
pub basis_sound :
    (r : Runtime) (b : AuthoritativeCurrentBasis)
    → (get_authoritative_current_basis r ≡ some b)
      ↔ ((r.status ≡ ready) × Read r r.current_screen_id r.latest_snapshot r.screen_state b)
unfolding get_authoritative_current_basis
basis_sound r b = (
  λ h. (
    ground arith,
    state-Read r b r.current_screen_id r.latest_snapshot r.screen_state (ground arith),
  ),
  λ h. basis_known r b h.0 h.1,
)

runtime-commit_runtime : (w : World) → (commit_runtime w).1.runtime ≡ w.runtime
unfolding commit_runtime
runtime-commit_runtime w = ground arith

demote-not_ready : (w : World) → is_ready (demote w).runtime.status ≡ false
unfolding demote
demote-not_ready w = ground arith

-- Normalizing leaves no runtime that is ready and has no live screen, whether or not its state
-- could be persisted; and it does nothing on its own result.
pub normalize_repairs :
    (w : World)
    → let w' = (normalize_stale_ready_runtime w).1 in
      (not (is_ready w'.runtime.status) || has_live_public_screen w'.runtime ≡ true)
      × (normalize_stale_ready_runtime w' ≡ (ok false, w'))
unfolding normalize_stale_ready_runtime
normalize_repairs w = ground (arith, runtime-commit_runtime (demote w), demote-not_ready w)
