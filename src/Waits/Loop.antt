-- ===== src/Waits/Loop.antt =====
-- `WaitRuntimeLoop.run` of waits/loop.py. The clock, the device and the runtime, which other threads
-- change too, are arguments: one `WaitRound` for each turn of the loop. A sleep only moves the clock.
use androidctl.Prelude.{ℕ, ltb, false, Option, none, some, List, [], ◌∷◌, if◌then◌else◌}
use androidctl.TextEquivalence.{Unicode}
use androidctl.Models.Errors.{DaemonError}
use androidctl.Models.Snapshots.{RawSnapshot}
use androidctl.Models.Semantic.{CompiledScreen}
use androidctl.Models.Public.{PublicScreen}
use androidctl.Models.Commands.{transient_invalid_snapshot_max_retries}
use androidctl.Runtime.Models.{Runtime}
use androidctl.Runtime.Screen.{current_public_screen, current_compiled_screen}
use androidctl.Runtime.Lifecycle.{Lease}
use androidctl.Runtime.Cancel.{CommandInfo, raise_if_stale}
use androidctl.Waits.AppTargets.{AppTargetMatch}
use androidctl.Waits.Observation
use androidctl.Waits.Observation.{
  ObservationPolicy, EventsPollResult, ObservationPollOutcome, ObservationLoop, timed_out,
  poll_wait_ms, apply_poll_result, should_refresh, mark_refreshed,
}
use androidctl.Waits.Evaluators.{
  WaitReadyContext, WaitIdleEvaluationState, no_idle_state, WaitEvaluationOutcome, wait_matched,
  wait_no_match, wait_idle_tracking, WaitPredicate, evaluate_ready_wait_match,
  wait_idle_stable_window_ms,
}
use androidctl.Waits.Retry.{Fetched, got, transient, failed, Retried, fetch_with_retry}

pub record WaitCommand : Type 0 where
  pub predicate : WaitPredicate
  pub timeout_ms : Option ℕ

-- What `events_poll` and the screen refresh do: they return, or raise.
pub data Call (A : Type 0) : Type 0 where
  answered : A → Call A
  call_failed : DaemonError → Call A

-- A turn: the readings of the clock in their order, the answers of the device, how the screen refresh
-- ends, and the runtime as `_cached_ready_wait_state` reads it.
pub record WaitRound : Type 0 where
  pub now : ℕ
  pub poll_result : Call EventsPollResult
  pub checked_at : ℕ
  pub fetch : ℕ → Fetched RawSnapshot DaemonError
  pub fetch_clock : ℕ → ℕ
  pub refreshed_at : ℕ
  pub refresh : RawSnapshot → Option DaemonError
  pub session : Runtime
  pub evaluated_at : ℕ
  pub ended_at : ℕ

pub record Waiting : Type 0 where
  pub observation : ObservationLoop
  pub idle_state : WaitIdleEvaluationState

-- How a turn ends: with a match, with the wait's time out, with an error, or it goes on.
pub data WaitStep : Type 0 where
  matched : RawSnapshot → Option AppTargetMatch → WaitStep
  loop_timed_out : WaitStep
  wait_failed : DaemonError → WaitStep
  wait_more : Waiting → WaitStep
  wait_stuck : WaitStep

-- `_cached_ready_wait_state`: no state, an error, or a state.
pub data Ready : Type 0 where
  not_ready_yet : Ready
  ready_failed : DaemonError → Ready
  ready_state : WaitReadyContext → Ready

abbrev wait_event_poll_slice_ms : ℕ
wait_event_poll_slice_ms = 250

abbrev wait_snapshot_max_interval_ms : ℕ
wait_snapshot_max_interval_ms = 500

-- `WAIT_TIMEOUT_MS_BY_KIND`: the same for every kind.
abbrev pub default_wait_timeout_ms : WaitPredicate → ℕ
default_wait_timeout_ms p = 3000

abbrev pub timeout_of : WaitCommand → ℕ
timeout_of c = elim c.timeout_ms [ none ↦ default_wait_timeout_ms c.predicate | some t ↦ t ]

abbrev pub wait_policy : ℕ → ObservationPolicy
wait_policy timeout_ms = record {
  min_grace_ms = 0;
  snapshot_max_interval_ms = wait_snapshot_max_interval_ms;
  stable_window_ms = wait_idle_stable_window_ms;
  max_total_ms = timeout_ms;
  poll_slice_ms = wait_event_poll_slice_ms;
}

-- `_ready_wait_state`
unfoldable pub ready_wait_state :
    Option RawSnapshot → Option PublicScreen → Option CompiledScreen → Option WaitReadyContext
ready_wait_state (some snapshot) (some public) compiled =
    some (record { snapshot = snapshot; public_screen = public; compiled_screen = compiled })
ready_wait_state _ _ compiled = none

-- `_wait_state` and `_ready_wait_state` of a session.
abbrev pub state_of : Runtime → Option WaitReadyContext
state_of session =
    ready_wait_state session.latest_snapshot (current_public_screen session)
      (current_compiled_screen session)

unfoldable pub cached_ready_wait_state : CommandInfo → Lease → Runtime → Ready
unfolding ready_wait_state raise_if_stale
cached_ready_wait_state info lease session = elim (state_of session) [
  | none ↦ not_ready_yet
  | some state ↦ elim (raise_if_stale info (some lease) session) [
    | some e ↦ ready_failed e
    | none ↦ ready_state state
  ]
]

abbrev pub quiet_poll : ObservationLoop → ObservationPollOutcome
quiet_poll o = record { saw_events = false; need_resync = false; latest_seq = o.after_seq }

abbrev pub Polled : Type 0
Polled = Call (ObservationPollOutcome × ObservationLoop)

abbrev pub polled : Call EventsPollResult → ObservationLoop → Polled
polled (answered result) o = answered (apply_poll_result result o)
polled (call_failed e) o = call_failed e

-- `_poll`
unfoldable pub poll : ℕ → Call EventsPollResult → ObservationLoop → Polled
poll now result o =
    if ltb 0 (poll_wait_ms o now) then polled result o else answered (quiet_poll o, o)

module _ (u : Unicode) (info : CommandInfo) (lease : Lease) (predicate : WaitPredicate) where
  -- The idle state after an evaluation.
  abbrev tracked : WaitIdleEvaluationState → WaitEvaluationOutcome → WaitIdleEvaluationState
  tracked idle (wait_idle_tracking next) = next
  tracked idle _ = idle

  -- The end of a turn without a match.
  unfoldable pub end_turn : ℕ → Waiting → WaitStep
  end_turn ended_at st = if timed_out st.observation ended_at then loop_timed_out else wait_more st

  unfoldable pub end_evaluation :
      ℕ → ObservationLoop → WaitIdleEvaluationState → WaitEvaluationOutcome → WaitStep
  unfolding end_turn
  end_evaluation ended_at o idle (wait_matched snapshot app) = matched snapshot app
  end_evaluation ended_at o idle wait_no_match =
      end_turn ended_at (record { observation = o; idle_state = idle })
  end_evaluation ended_at o idle (wait_idle_tracking next) =
      end_turn ended_at (record { observation = o; idle_state = next })

  -- The turn from the state of the session on.
  unfoldable pub evaluate_turn : WaitRound → ObservationLoop → WaitIdleEvaluationState → WaitStep
  unfolding cached_ready_wait_state end_turn end_evaluation
  evaluate_turn r o idle = elim (cached_ready_wait_state info lease r.session) [
    | not_ready_yet ↦ end_turn r.ended_at (record { observation = o; idle_state = idle })
    | ready_failed e ↦ wait_failed e
    | ready_state state ↦
        end_evaluation r.ended_at o idle
          (evaluate_ready_wait_match u predicate state idle r.evaluated_at)
  ]

  unfoldable pub after_refresh :
      WaitRound → ObservationLoop → WaitIdleEvaluationState → Option DaemonError → WaitStep
  unfolding evaluate_turn
  after_refresh r o idle none = evaluate_turn r (mark_refreshed r.refreshed_at o) idle
  after_refresh r o idle (some e) = wait_failed e

  unfoldable pub after_fetch :
      WaitRound
      → ObservationLoop
      → WaitIdleEvaluationState
      → Option (Retried RawSnapshot DaemonError)
      → WaitStep
  unfolding after_refresh
  after_fetch r o idle none = wait_stuck
  after_fetch r o idle (some retried) = elim retried.result [
    | got snapshot ↦ after_refresh r o idle (r.refresh snapshot)
    | transient e ↦ wait_failed e
    | failed e ↦ wait_failed e
  ]

  -- The turn after its poll.
  unfoldable pub after_poll : WaitRound → WaitIdleEvaluationState → Polled → WaitStep
  unfolding after_fetch evaluate_turn
  after_poll r idle (call_failed e) = wait_failed e
  after_poll r idle (answered (outcome, o)) =
      if should_refresh o r.checked_at outcome.saw_events outcome.need_resync
      then after_fetch r o idle (
          fetch_with_retry r.fetch r.fetch_clock (Observation.deadline_at o)
            transient_invalid_snapshot_max_retries)
      else evaluate_turn r o idle

  unfoldable pub wait_round : WaitRound → Waiting → WaitStep
  unfolding after_poll poll
  wait_round r st = after_poll r st.idle_state (poll r.now r.poll_result st.observation)

  unfoldable pub wait_rounds : List WaitRound → Waiting → WaitStep
  unfolding wait_round
  wait_rounds [] st = wait_more st
  wait_rounds (r ∷ rs) st = elim (wait_round r st) [
    | matched snapshot app ↦ matched snapshot app
    | loop_timed_out ↦ loop_timed_out
    | wait_failed e ↦ wait_failed e
    | wait_more next ↦ wait_rounds rs next
    | wait_stuck ↦ wait_stuck
  ]

  -- The evaluation before the loop, at its start.
  unfoldable pub first_evaluation : Runtime → ℕ → ObservationLoop → WaitStep
  unfolding cached_ready_wait_state
  first_evaluation session started_at o = elim (cached_ready_wait_state info lease session) [
    | not_ready_yet ↦ wait_more (record { observation = o; idle_state = no_idle_state })
    | ready_failed e ↦ wait_failed e
    | ready_state state ↦
        elim (evaluate_ready_wait_match u predicate state no_idle_state started_at) [
          | wait_matched snapshot app ↦ matched snapshot app
          | wait_no_match ↦ wait_more (record { observation = o; idle_state = no_idle_state })
          | wait_idle_tracking next ↦ wait_more (record { observation = o; idle_state = next })
        ]
  ]

-- The loop with what `device_client_factory` gives: a client, or its error.
abbrev pub with_client :
    Unicode
    → CommandInfo
    → Lease
    → WaitPredicate
    → Option DaemonError
    → List WaitRound
    → Waiting
    → WaitStep
with_client u info lease predicate none rounds st = wait_rounds u info lease predicate rounds st
with_client u info lease predicate (some e) rounds st = wait_failed e

-- `run`: `session` is the runtime at the start, and `client_error` what the call of
-- `device_client_factory` raises, if it does.
unfoldable pub run :
    Unicode
    → CommandInfo
    → Lease
    → WaitCommand
    → Option DaemonError
    → Runtime
    → ℕ
    → List WaitRound
    → WaitStep
unfolding first_evaluation wait_rounds
run u info lease command client_error session started_at rounds =
    let start = Observation.begin (wait_policy (timeout_of command)) started_at in
    elim (first_evaluation u info lease command.predicate session started_at start) [
      | matched snapshot app ↦ matched snapshot app
      | loop_timed_out ↦ loop_timed_out
      | wait_failed e ↦ wait_failed e
      | wait_more st ↦ with_client u info lease command.predicate client_error rounds st
      | wait_stuck ↦ wait_stuck
    ]
