-- ===== src/Actions/Settle.antt =====
-- `ActionSettler.settle` of actions/settle.py. What the clock and the device answer is an argument:
-- one `SettleRound` for each turn of the loop. A sleep only moves the clock, and is not kept.
use androidctl.Prelude.{
  ℕ, ltb, Bool, true, false, not, Option, none, some, List, [], ◌∷◌, if◌then◌else◌,
}
use androidctl.TextEquivalence.{Unicode}
use androidctl.Models.Errors.{DaemonError}
use androidctl.Models.Snapshots.{RawSnapshot}
use androidctl.Models.Semantic.{CompiledScreen}
use androidctl.Models.Commands.{
  CommandKind, settle_min_grace_ms, settle_max_total_ms, settle_stable_window_ms,
  settle_snapshot_max_interval_ms, settle_poll_slice_ms, transient_invalid_snapshot_max_retries,
}
use androidctl.Waits.Observation
use androidctl.Waits.Observation.{
  ObservationPolicy, EventsPollResult, ObservationPollOutcome, ObservationLoop, timed_out,
  poll_wait_ms, apply_poll_result, should_refresh, mark_refreshed, observe_stability,
}
use androidctl.Waits.Signature.{ScreenSignature, settle_screen_signature, signature_eq}
use androidctl.Waits.Retry.{Fetched, got, transient, failed, Retried, fetch_with_retry}

-- The readings of the clock in a turn, in their order; the answer to `events_poll`, or `none` where
-- it raises; and the answers and readings of the fetch.
pub record SettleRound : Type 0 where
  pub now : ℕ
  pub poll_result : Option EventsPollResult
  pub checked_at : ℕ
  pub fetch : ℕ → Fetched RawSnapshot DaemonError
  pub fetch_clock : ℕ → ℕ
  pub refreshed_at : ℕ
  pub observed_at : ℕ
  pub ended_at : ℕ

-- The variables of the loop.
pub record Settling : Type 0 where
  pub observation : ObservationLoop
  pub latest_snapshot : Option RawSnapshot
  pub latest_signature : ScreenSignature

-- How a turn ends: `settled` is the return of a `SettledSnapshot`, with its `timed_out`; `raised`
-- is the error of the fetch; `more` goes on; `stuck` stands for a fetch without an end.
pub data SettleStep : Type 0 where
  settled : RawSnapshot → Bool → SettleStep
  raised : DaemonError → SettleStep
  more : Settling → SettleStep
  stuck : SettleStep

abbrev pub settle_policy : CommandKind → ObservationPolicy
settle_policy kind = record {
  min_grace_ms = settle_min_grace_ms kind;
  snapshot_max_interval_ms = settle_snapshot_max_interval_ms kind;
  stable_window_ms = settle_stable_window_ms kind;
  max_total_ms = settle_max_total_ms kind;
  poll_slice_ms = settle_poll_slice_ms;
}

unfoldable pub start_settling : CommandKind → ℕ → ScreenSignature → Settling
start_settling kind started_at baseline = record {
  observation = Observation.begin (settle_policy kind) started_at;
  latest_snapshot = none;
  latest_signature = baseline;
}

abbrev quiet_poll : ObservationLoop → ObservationPollOutcome
quiet_poll o = record { saw_events = false; need_resync = false; latest_seq = o.after_seq }

abbrev answered_poll :
    Option EventsPollResult → ObservationLoop → ObservationPollOutcome × ObservationLoop
answered_poll none o = (quiet_poll o, o)
answered_poll (some result) o = apply_poll_result result o

-- The poll of a turn.
unfoldable pub poll_events :
    ℕ → Option EventsPollResult → ObservationLoop → ObservationPollOutcome × ObservationLoop
poll_events now result o =
    if ltb 0 (poll_wait_ms o now) then answered_poll result o else (quiet_poll o, o)

module _ (u : Unicode) (compile : RawSnapshot → CompiledScreen) where
  -- The turn's end once its observation has been made.
  unfoldable pub end_observed :
      SettleRound → RawSnapshot → ScreenSignature → Bool × ObservationLoop → SettleStep
  end_observed r snapshot signature (is_stable, o) =
      if is_stable
      then settled snapshot false
      else if timed_out o r.ended_at
      then settled snapshot true
      else more (record {
        observation = o;
        latest_snapshot = some snapshot;
        latest_signature = signature;
      })

  -- The observation of a fetched snapshot.
  unfoldable pub observe_snapshot :
      SettleRound → RawSnapshot → ObservationLoop → Settling → SettleStep
  unfolding end_observed
  observe_snapshot r snapshot o st =
      let signature = settle_screen_signature u (compile snapshot) in
      end_observed r snapshot signature (
        observe_stability r.observed_at (not (signature_eq signature st.latest_signature))
          (mark_refreshed r.refreshed_at o))

  unfoldable pub end_fetch :
      SettleRound
      → Option (Retried RawSnapshot DaemonError)
      → ObservationLoop
      → Settling
      → SettleStep
  unfolding observe_snapshot
  end_fetch r none o st = stuck
  end_fetch r (some retried) o st = elim retried.result [
    | got snapshot ↦ observe_snapshot r snapshot o st
    | transient e ↦ raised e
    | failed e ↦ raised e
  ]

  -- The turn without a refresh.
  unfoldable pub skip_refresh : SettleRound → ObservationLoop → Settling → SettleStep
  skip_refresh r o st =
      let later = more (record st { observation = o }) in
      if timed_out o r.checked_at
      then elim st.latest_snapshot [ none ↦ later | some snapshot ↦ settled snapshot true ]
      else later

  -- One turn of the loop.
  unfoldable pub settle_round : SettleRound → Settling → SettleStep
  unfolding poll_events end_fetch skip_refresh
  settle_round r st =
      let (outcome, o) = poll_events r.now r.poll_result st.observation in
      if not (should_refresh o r.checked_at outcome.saw_events outcome.need_resync)
      then skip_refresh r o st
      else end_fetch r
          (fetch_with_retry r.fetch r.fetch_clock (Observation.deadline_at o)
            transient_invalid_snapshot_max_retries)
          o st

  -- The loop, over the turns that the clock and the device answer.
  unfoldable pub settle : List SettleRound → Settling → SettleStep
  unfolding settle_round
  settle [] st = more st
  settle (r ∷ rs) st = elim (settle_round r st) [
    | settled snapshot late ↦ settled snapshot late
    | raised e ↦ raised e
    | more next ↦ settle rs next
    | stuck ↦ stuck
  ]
