-- ===== src/Actions/SettleEnds.antt =====
-- `ActionSettler.settle` of actions/settle.py comes to an end at its deadline.
use androidctl.Prelude.{
  ℕ, ◌+◌, leb, is_some, Bool, true, false, ◌&&◌, ◌||◌, not, Option, none, some, List, [], ◌∷◌, ◌++◌,
  ◌≤◌, ◌≡◌, refl, ◌∙◌, arith, Option-cases, inl, inr, by_if,
}
use androidctl.TextEquivalence.{Unicode}
use androidctl.Models.Snapshots.{RawSnapshot}
use androidctl.Models.Semantic.{CompiledScreen}
use androidctl.Models.Commands.{
  CommandKind, settle_max_total_ms, transient_invalid_snapshot_max_retries,
}
use androidctl.Waits.Observation.{
  EventsPollResult, ObservationLoop, begin, deadline_at, timed_out, apply_poll_result,
  should_refresh, mark_refreshed, observe_stability,
}
use androidctl.Waits.Signature.{ScreenSignature, settle_screen_signature, signature_eq}
use androidctl.Waits.Retry.{got, transient, failed, fetch_with_retry, Ends, fetch_with_retry-Ends}
use androidctl.Actions.Settle.{
  SettleRound, Settling, SettleStep, settled, raised, more, stuck, start_settling, poll_events,
  end_observed, observe_snapshot, end_fetch, skip_refresh, settle_round, settle,
}

-- The loop has returned or raised.
abbrev pub is_over : SettleStep → Bool
is_over (settled _ _) = true
is_over (raised _) = true
is_over _ = false

-- The deadline of the loop, and a snapshot is kept once there was a refresh.
abbrev Kept : ℕ → Settling → Type 0
Kept d st =
    (deadline_at st.observation ≡ d)
    × ((not (is_some st.observation.last_refresh_at) || is_some st.latest_snapshot) ≡ true)

-- The turn is past the deadline.
abbrev is_late : ℕ → SettleRound → Bool
is_late d r = leb d r.checked_at && leb d r.ended_at

-- What a turn leaves: an end, or a state that is kept, and then the turn was not past the deadline.
abbrev Goes : ℕ → SettleRound → SettleStep → Type 0
Goes d r (settled _ _) = Unit
Goes d r (raised _) = Unit
Goes d r (more st) = Kept d st × (is_late d r ≡ false)
Goes d r stuck = ⊥

deadline-poll :
    (now : ℕ) (p : Option EventsPollResult) (o : ObservationLoop)
    → deadline_at (poll_events now p o).1 ≡ deadline_at o
unfolding poll_events apply_poll_result deadline_at
deadline-poll now none o = ground arith
deadline-poll now (some p) o = ground arith

refreshed-poll :
    (now : ℕ) (p : Option EventsPollResult) (o : ObservationLoop)
    → is_some (poll_events now p o).1.last_refresh_at ≡ true
    → is_some o.last_refresh_at ≡ true
unfolding poll_events apply_poll_result
refreshed-poll now none o h = ground arith
refreshed-poll now (some p) o h = ground arith

no_refresh :
    (o : ObservationLoop) (now : ℕ) (saw resync : Bool)
    → should_refresh o now saw resync ≡ false
    → is_some o.last_refresh_at ≡ true
unfolding should_refresh
no_refresh o now saw resync h = ground arith

deadline-observe :
    (now : ℕ) (changed : Bool) (o : ObservationLoop)
    → deadline_at (observe_stability now changed o).1 ≡ deadline_at o
unfolding observe_stability deadline_at
deadline-observe now changed o = ground arith

deadline-mark : (now : ℕ) (o : ObservationLoop) → deadline_at (mark_refreshed now o) ≡ deadline_at o
unfolding mark_refreshed deadline_at
deadline-mark now o = refl

module _ (u : Unicode) (compile : RawSnapshot → CompiledScreen) (d : ℕ) (r : SettleRound) where
  not_late :
      (o : ObservationLoop)
      → deadline_at o ≡ d
      → timed_out o r.ended_at ≡ false
      → is_late d r ≡ false
  unfolding timed_out
  not_late o h k = ground arith

  not_late_check :
      (o : ObservationLoop)
      → deadline_at o ≡ d
      → timed_out o r.checked_at ≡ false
      → is_late d r ≡ false
  unfolding timed_out
  not_late_check o h k = ground arith

  end_observed-Goes :
      (snapshot : RawSnapshot) (signature : ScreenSignature) (p : Bool × ObservationLoop)
      → deadline_at p.1 ≡ d
      → Goes d r (end_observed u compile r snapshot signature p)
  unfolding end_observed timed_out
  end_observed-Goes snapshot signature (is_stable, o) h =
      by_if (Goes d r) is_stable _ _ (λ _. tt)
        (λ _.
          by_if (Goes d r) (timed_out o r.ended_at) _ _ (λ _. tt)
            (λ early. ((h, ground arith), not_late o h early)))

  observe_snapshot-Goes :
      (snapshot : RawSnapshot) (o : ObservationLoop) (st : Settling)
      → deadline_at o ≡ d
      → Goes d r (observe_snapshot u compile r snapshot o st)
  unfolding observe_snapshot mark_refreshed
  observe_snapshot-Goes snapshot o st h =
      let changed =
        not (signature_eq (settle_screen_signature u (compile snapshot)) st.latest_signature) in
      end_observed-Goes snapshot _
        (observe_stability r.observed_at changed (mark_refreshed r.refreshed_at o))
        (deadline-observe r.observed_at changed (mark_refreshed r.refreshed_at o)
          ∙ deadline-mark r.refreshed_at o
          ∙ h)

  end_fetch-Goes :
      (o : ObservationLoop) (st : Settling)
      → deadline_at o ≡ d
      → Goes d r (
          end_fetch u compile r
            (fetch_with_retry r.fetch r.fetch_clock
              (deadline_at o)
              transient_invalid_snapshot_max_retries)
            o
            st)
  unfolding end_fetch
  end_fetch-Goes o st h =
      (elim (fetch_with_retry r.fetch r.fetch_clock (deadline_at o)
            transient_invalid_snapshot_max_retries)
          as (λ f.
            Ends r.fetch r.fetch_clock (deadline_at o) transient_invalid_snapshot_max_retries f
            → Goes d r (end_fetch u compile r f o st)) [
              | none ↦ λ e. e
              | some retried ↦ λ e.
                  elim retried.result
                    as (λ f. Goes d r (elim f [
                      | got snapshot ↦ observe_snapshot u compile r snapshot o st
                      | transient e ↦ raised e
                      | failed e ↦ raised e
                    ])) [
                      | got snapshot ↦ observe_snapshot-Goes snapshot o st h
                      | transient x ↦ tt
                      | failed x ↦ tt
                    ]
            ])
        (fetch_with_retry-Ends r.fetch r.fetch_clock (deadline_at o)
          transient_invalid_snapshot_max_retries)

  skip_refresh-Goes :
      (o : ObservationLoop) (st : Settling)
      → deadline_at o ≡ d
      → is_some st.latest_snapshot ≡ true
      → Goes d r (skip_refresh u compile r o st)
  unfolding skip_refresh timed_out
  skip_refresh-Goes o st h k =
      by_if (Goes d r) (timed_out o r.checked_at) _ _
        (λ over. elim (Option-cases st.latest_snapshot) [
          | inl gone ↦ absurd cc
          | inr (s, e) ↦ rw (e) tt
        ])
        (λ early. ((h, ground arith), not_late_check o h early))

  settle_round-Goes : (st : Settling) → Kept d st → Goes d r (settle_round u compile r st)
  unfolding settle_round
  settle_round-Goes st kept =
      let p = poll_events r.now r.poll_result st.observation in
      let h = deadline-poll r.now r.poll_result st.observation ∙ kept.0 in
      by_if (Goes d r) (not (should_refresh p.1 r.checked_at p.0.saw_events p.0.need_resync)) _ _
        (λ skip.
          let had = no_refresh p.1 r.checked_at p.0.saw_events p.0.need_resync (ground arith) in
          let before = refreshed-poll r.now r.poll_result st.observation had in
          skip_refresh-Goes p.1 st h (ground arith))
        (λ _. end_fetch-Goes p.1 st h)

module _ (u : Unicode) (compile : RawSnapshot → CompiledScreen) (d : ℕ) where
  settle_over :
      (before later : List SettleRound) (late : SettleRound) (st : Settling)
      → is_late d late ≡ true
      → Kept d st
      → is_over (settle u compile (before ++ late ∷ later) st) ≡ true
  unfolding settle
  settle_over [] later late st h kept =
      (elim (settle_round u compile late st)
          as (λ x.
            Goes d late x
            → is_over (elim x [
              | settled snapshot after ↦ settled snapshot after
              | raised e ↦ raised e
              | more next ↦ settle u compile later next
              | stuck ↦ stuck
            ])
              ≡ true) [
                | settled _ _ ↦ λ g. refl
                | raised _ ↦ λ g. refl
                | more next ↦ λ g. let early = g.1 in absurd cc
                | stuck ↦ λ g. absurd g
              ])
        (settle_round-Goes u compile d late st kept)
  settle_over (r ∷ rs) later late st h kept =
      (elim (settle_round u compile r st)
          as (λ x.
            Goes d r x
            → is_over (elim x [
              | settled snapshot after ↦ settled snapshot after
              | raised e ↦ raised e
              | more next ↦ settle u compile (rs ++ late ∷ later) next
              | stuck ↦ stuck
            ])
              ≡ true) [
                | settled _ _ ↦ λ g. refl
                | raised _ ↦ λ g. refl
                | more next ↦ λ g. settle_over rs later late next h g.0
                | stuck ↦ λ g. absurd g
              ])
        (settle_round-Goes u compile d r st kept)

-- The loop returns or raises by the first turn whose readings of the clock are past the longest time
-- of the command's kind, whatever the device answers before.
pub settle_ends :
    (u : Unicode) (compile : RawSnapshot → CompiledScreen) (kind : CommandKind) (started_at : ℕ)
    (baseline : ScreenSignature) (before later : List SettleRound) (late : SettleRound)
    → started_at + settle_max_total_ms kind ≤ late.checked_at
    → started_at + settle_max_total_ms kind ≤ late.ended_at
    → is_over (settle u compile (before ++ late ∷ later) (start_settling kind started_at baseline))
      ≡ true
unfolding start_settling begin deadline_at
settle_ends u compile kind started_at baseline before later late h k =
    settle_over u compile (started_at + settle_max_total_ms kind) before later late
      (start_settling kind started_at baseline) (ground arith) (refl, refl)
