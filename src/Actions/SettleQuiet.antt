-- ===== src/Actions/SettleQuiet.antt =====
-- What a settled screen of `ActionSettler.settle` (actions/settle.py) has seen.
use androidctl.Prelude.{
  ℕ, ◌+◌, ◌-◌, ◌≤◌, leb, ltb, Bool, true, false, not, Option, none, some, List, [], ◌∷◌, ◌≡◌, refl,
  sym, ap, subst, arith, if◌then◌else◌, by_if,
}
use androidctl.TextEquivalence.{Unicode}
use androidctl.Models.Errors.{DaemonError}
use androidctl.Models.Snapshots.{RawSnapshot}
use androidctl.Models.Semantic.{CompiledScreen}
use androidctl.Models.Commands.{
  CommandKind, settle_min_grace_ms, settle_stable_window_ms, transient_invalid_snapshot_max_retries,
}
use androidctl.Waits.Observation.{
  EventsPollResult, ObservationPollOutcome, ObservationLoop, begin, deadline_at, timed_out,
  poll_wait_ms, grace_deadline_at, grace_elapsed, since, apply_poll_result, should_refresh,
  mark_refreshed, observe_stability,
}
use androidctl.Waits.Signature.{ScreenSignature, settle_screen_signature, signature_eq}
use androidctl.Waits.Equality.{signature_eq→eq}
use androidctl.Waits.Retry.{got, transient, failed, Retried, fetch_with_retry}
use androidctl.Actions.Settle.{
  SettleRound, Settling, SettleStep, settled, raised, more, stuck, start_settling, settle_policy,
  poll_events, end_observed, observe_snapshot, end_fetch, skip_refresh, settle_round,
}

-- The observed signatures with their times, the last one first.
abbrev pub Signatures : Type 0
Signatures = List (ℕ × ScreenSignature)

-- The observations back to one at time `t`, that one included, all had the signature.
pub data SameSince (t : ℕ) (x : ScreenSignature) : Signatures → Type 0 where
  first_seen : {h : Signatures} → SameSince t x ((t, x) ∷ h)
  seen_again : {now : ℕ} {h : Signatures} → SameSince t x h → SameSince t x ((now, x) ∷ h)

abbrev Quiet : Option ℕ → ScreenSignature → Signatures → Type 0
Quiet none x h = Unit
Quiet (some t) x h = SameSince t x h

since-Quiet :
    (o : Option ℕ) (now : ℕ) (x : ScreenSignature) (h : Signatures)
    → Quiet o x h
    → SameSince (since o now) x ((now, x) ∷ h)
since-Quiet none now x h q = first_seen
since-Quiet (some t) now x h q = seen_again q

abbrev When : Bool → Type 0 → Type 0
When true P = P
When false P = Unit

when_true : (b : Bool) (P : Type 0) → (b ≡ true → P) → When b P
when_true true P h = h refl
when_true false P h = tt

module _ (u : Unicode) (compile : RawSnapshot → CompiledScreen) (kind : CommandKind)
    (started_at : ℕ) where
  abbrev signature_of : RawSnapshot → ScreenSignature
  signature_of snapshot = settle_screen_signature u (compile snapshot)

  -- What a fetch observes.
  abbrev fetched : SettleRound → Option (Retried RawSnapshot DaemonError) → Signatures → Signatures
  fetched r none h = h
  fetched r (some retried) h = elim retried.result [
    | got snapshot ↦ (r.observed_at, signature_of snapshot) ∷ h
    | transient _ ↦ h
    | failed _ ↦ h
  ]

  -- The history after a turn: with the observation that it makes, if it refreshes.
  unfoldable pub observed_by : SettleRound → Settling → Signatures → Signatures
  observed_by r st h =
      let (outcome, o) = poll_events r.now r.poll_result st.observation in
      if not (should_refresh o r.checked_at outcome.saw_events outcome.need_resync)
      then h
      else fetched r
          (fetch_with_retry r.fetch r.fetch_clock (deadline_at o)
            transient_invalid_snapshot_max_retries)
          h

  -- The states that the loop comes to, with what it has observed.
  pub data Reached (baseline : ScreenSignature) : Settling → Signatures → Type 0 where
    begun : Reached baseline (start_settling kind started_at baseline) []
    turned :
        {st next : Settling} {h : Signatures} (r : SettleRound)
        → Reached baseline st h
        → settle_round u compile r st ≡ more next
        → Reached baseline next (observed_by r st h)

  -- The policy and the start of the loop, and the quiet behind `stable_since`.
  abbrev Sound : ObservationLoop → ScreenSignature → Signatures → Type 0
  Sound o x h =
      (o.policy ≡ settle_policy kind) × (o.started_at ≡ started_at) × Quiet o.stable_since x h

  -- A stable end: the last observation is of the snapshot, after the grace period, and the
  -- observations back to one that is the stable window before it had its signature.
  abbrev pub StableEnd : SettleRound → RawSnapshot → Signatures → Type 0
  StableEnd r snapshot h =
      (started_at + settle_min_grace_ms kind ≤ r.observed_at)
      × (t : ℕ) × (settle_stable_window_ms kind ≤ r.observed_at - t)
      × SameSince t (signature_of snapshot) h

  abbrev Quietly : SettleRound → Signatures → SettleStep → Type 0
  Quietly r h (settled snapshot false) = StableEnd r snapshot h
  Quietly r h (settled snapshot true) = Unit
  Quietly r h (raised _) = Unit
  Quietly r h (more st) = Sound st.observation st.latest_signature h
  Quietly r h stuck = Unit

  poll-Sound :
      (now : ℕ) (p : Option EventsPollResult) (o : ObservationLoop) (x : ScreenSignature)
      (h : Signatures)
      → Sound o x h
      → Sound (poll_events now p o).1 x h
  unfolding poll_events apply_poll_result
  poll-Sound now none o x h s =
      by_if {A = ObservationPollOutcome × ObservationLoop} (λ p. Sound p.1 x h)
        (ltb 0 (poll_wait_ms o now)) _ _ (λ _. s) (λ _. s)
  poll-Sound now (some p) o x h s =
      by_if {A = ObservationPollOutcome × ObservationLoop} (λ p. Sound p.1 x h)
        (ltb 0 (poll_wait_ms o now)) _ _
        (λ _. by_if (λ o. Sound o x h) p.need_resync _ _ (λ _. (s.0, s.1, tt)) (λ _. s)) (λ _. s)

  -- What an observation reports, by whether it saw a change.
  abbrev Observed : SettleRound → RawSnapshot → Signatures → Bool × ObservationLoop → Type 0
  Observed r snapshot h p = Sound p.1 (signature_of snapshot) h × When p.0 (StableEnd r snapshot h)

  window :
      (r : SettleRound) (o : ObservationLoop) (x : ScreenSignature) (h : Signatures)
      → Sound o x h
      → (if grace_elapsed o r.observed_at
          then leb o.policy.stable_window_ms (r.observed_at - since o.stable_since r.observed_at)
          else false)
        ≡ true
      → (started_at + settle_min_grace_ms kind ≤ r.observed_at)
        × (settle_stable_window_ms kind ≤ r.observed_at - since o.stable_since r.observed_at)
  unfolding grace_elapsed grace_deadline_at
  window r o x h s e =
      let same_policy : o.policy ≡ settle_policy kind = s.0 in
      let grace : o.policy.min_grace_ms ≡ settle_min_grace_ms kind =
        ap (λ p. p.min_grace_ms) same_policy in
      let stable : o.policy.stable_window_ms ≡ settle_stable_window_ms kind =
        ap (λ p. p.stable_window_ms) same_policy in
      ground arith

  observe-Observed :
      (r : SettleRound) (snapshot : RawSnapshot) (o : ObservationLoop) (x : ScreenSignature)
      (h : Signatures)
      → Sound o x h
      → Observed r snapshot
          ((r.observed_at, signature_of snapshot) ∷ h)
          (observe_stability r.observed_at (not (signature_eq (signature_of snapshot) x)) o)
  unfolding observe_stability
  observe-Observed r snapshot o x h s =
      by_if (Observed r snapshot ((r.observed_at, signature_of snapshot) ∷ h))
        (not (signature_eq (signature_of snapshot) x)) _ _ (λ _. ((s.0, s.1, tt), tt))
        (λ e.
          let same = signature_eq→eq (signature_of snapshot) x (ground arith) in
          let quiet =
            subst (λ y. SameSince (since o.stable_since r.observed_at) y ((r.observed_at, y) ∷ h))
              (sym same) (since-Quiet o.stable_since r.observed_at x h s.2) in
          (
            (s.0, s.1, quiet),
            when_true _ _ (λ e.
                let facts = window r o x h s e in
                (facts.0, since o.stable_since r.observed_at, facts.1, quiet)),
          ))

  end_observed-Quietly :
      (r : SettleRound) (snapshot : RawSnapshot) (h : Signatures) (p : Bool × ObservationLoop)
      → Observed r snapshot h p
      → Quietly r h (end_observed u compile r snapshot (signature_of snapshot) p)
  unfolding end_observed
  end_observed-Quietly r snapshot h (true, o) k = k.1
  end_observed-Quietly r snapshot h (false, o) k =
      by_if (Quietly r h) (timed_out o r.ended_at) _ _ (λ _. tt) (λ _. k.0)

  end_fetch-Quietly :
      (r : SettleRound) (f : Option (Retried RawSnapshot DaemonError)) (o : ObservationLoop)
      (st : Settling) (h : Signatures)
      → Sound o st.latest_signature h
      → Quietly r (fetched r f h) (end_fetch u compile r f o st)
  unfolding end_fetch observe_snapshot mark_refreshed
  end_fetch-Quietly r none o st h s = tt
  end_fetch-Quietly r (some retried) o st h s =
      elim retried.result
        as (λ f.
          Quietly r
            (elim f [
              | got snapshot ↦ (r.observed_at, signature_of snapshot) ∷ h
              | transient _ ↦ h
              | failed _ ↦ h
            ])
            (elim f [
              | got snapshot ↦ observe_snapshot u compile r snapshot o st
              | transient e ↦ raised e
              | failed e ↦ raised e
            ])) [
              | got snapshot ↦ end_observed-Quietly r snapshot _ _ (
                  observe-Observed r snapshot (mark_refreshed r.refreshed_at o) st.latest_signature
                    h s)
              | transient _ ↦ tt
              | failed _ ↦ tt
            ]

  skip_refresh-Quietly :
      (r : SettleRound) (o : ObservationLoop) (st : Settling) (h : Signatures)
      → Sound o st.latest_signature h
      → Quietly r h (skip_refresh u compile r o st)
  unfolding skip_refresh
  skip_refresh-Quietly r o st h s =
      by_if (Quietly r h) (timed_out o r.checked_at) _ _
        (λ _.
          elim st.latest_snapshot
            as (λ l. Quietly r h (elim l [
              | none ↦ more (record st { observation = o })
              | some snapshot ↦ settled snapshot true
            ])) [ none ↦ s | some _ ↦ tt ])
        (λ _. s)

  settle_round-Quietly :
      (r : SettleRound) (st : Settling) (h : Signatures)
      → Sound st.observation st.latest_signature h
      → Quietly r (observed_by r st h) (settle_round u compile r st)
  unfolding settle_round observed_by
  settle_round-Quietly r st h s =
      let p = poll_events r.now r.poll_result st.observation in
      let polled = poll-Sound r.now r.poll_result st.observation st.latest_signature h s in
      elim (not (should_refresh p.1 r.checked_at p.0.saw_events p.0.need_resync))
        as (λ b.
          Quietly r
            (if b
              then h
              else fetched r
                  (fetch_with_retry r.fetch r.fetch_clock (deadline_at p.1)
                    transient_invalid_snapshot_max_retries)
                  h)
            (if b
              then skip_refresh u compile r p.1 st
              else end_fetch u compile r
                  (fetch_with_retry r.fetch r.fetch_clock (deadline_at p.1)
                    transient_invalid_snapshot_max_retries)
                  p.1 st)) [
                    | true ↦ skip_refresh-Quietly r p.1 st h polled
                    | false ↦ end_fetch-Quietly r _ p.1 st h polled
                  ]

  Reached-Sound :
      (baseline : ScreenSignature) (st : Settling) (h : Signatures)
      → Reached baseline st h
      → Sound st.observation st.latest_signature h
  unfolding start_settling begin
  Reached-Sound baseline st h begun = (refl, refl, tt)
  Reached-Sound baseline next h (turned {st = st} {h = g} r before e) =
      subst (Quietly r (observed_by r st g)) e
        (settle_round-Quietly r st g (Reached-Sound baseline st g before))

  -- When a turn, in a state that the loop comes to, settles on a snapshot that has not timed out, the
  -- observations back to one that is the stable window before it all had the signature of that
  -- snapshot, and the grace period of the command's kind is over.
  pub settle_is_quiet :
      (baseline : ScreenSignature) (st : Settling) (h : Signatures) (r : SettleRound)
      (snapshot : RawSnapshot)
      → Reached baseline st h
      → settle_round u compile r st ≡ settled snapshot false
      → StableEnd r snapshot (observed_by r st h)
  settle_is_quiet baseline st h r snapshot reached e =
      subst (Quietly r (observed_by r st h)) e
        (settle_round-Quietly r st h (Reached-Sound baseline st h reached))
