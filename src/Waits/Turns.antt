-- ===== src/Waits/Turns.antt =====
-- What a turn of `WaitRuntimeLoop.run` (waits/loop.py) leaves.
use androidctl.Prelude.{
  ℕ, ◌≤◌, leb, ltb, true, false, Option, none, some, ◌≡◌, refl, ◌∙◌, arith, by_if,
}
use androidctl.TextEquivalence.{Unicode}
use androidctl.Models.Errors.{DaemonError}
use androidctl.Models.Snapshots.{RawSnapshot}
use androidctl.Models.Commands.{transient_invalid_snapshot_max_retries}
use androidctl.Runtime.Models.{Runtime}
use androidctl.Runtime.Lifecycle.{Lease, is_current}
use androidctl.Runtime.Cancel.{CommandInfo, raise_if_stale}
use androidctl.Waits.AppTargets.{AppTargetMatch}
use androidctl.Waits.Observation.{
  EventsPollResult, ObservationPollOutcome, ObservationLoop, deadline_at, timed_out, poll_wait_ms,
  apply_poll_result, should_refresh, mark_refreshed,
}
use androidctl.Waits.Evaluators.{
  WaitReadyContext, WaitIdleEvaluationState, WaitEvaluationOutcome, wait_matched, wait_no_match,
  wait_idle_tracking, WaitPredicate, evaluate_ready_wait_match,
}
use androidctl.Waits.Retry.{got, transient, failed, Retried, Ends, fetch_with_retry-Ends}
use androidctl.Waits.Loop.{
  answered, call_failed, WaitRound, Waiting, WaitStep, matched, loop_timed_out, wait_failed,
  wait_more, wait_stuck, not_ready_yet, ready_failed, ready_state, state_of,
  cached_ready_wait_state, Polled, polled, quiet_poll, poll, end_turn, end_evaluation,
  evaluate_turn, after_refresh, after_fetch, after_poll, wait_round,
}

deadline-poll :
    (r : EventsPollResult) (o : ObservationLoop)
    → deadline_at (apply_poll_result r o).1 ≡ deadline_at o
unfolding apply_poll_result deadline_at
deadline-poll r o = ground arith

deadline-mark : (now : ℕ) (o : ObservationLoop) → deadline_at (mark_refreshed now o) ≡ deadline_at o
unfolding mark_refreshed deadline_at
deadline-mark now o = refl

module _ (u : Unicode) (info : CommandInfo) (lease : Lease) (predicate : WaitPredicate) where
  -- The session's state meets the predicate while the lease is current.
  abbrev pub Met : Runtime → ℕ → RawSnapshot → Option AppTargetMatch → Type 0
  Met session now snapshot app =
      (is_current lease session ≡ true)
      × (state : WaitReadyContext) × (idle : WaitIdleEvaluationState) × (state_of session
          ≡ some state)
      × (evaluate_ready_wait_match u predicate state idle now ≡ wait_matched snapshot app)

  -- A ready state is that of the session, under a current lease.
  pub ready-Met :
      (session : Runtime) (state : WaitReadyContext)
      → cached_ready_wait_state info lease session ≡ ready_state state
      → (is_current lease session ≡ true) × (state_of session ≡ some state)
  unfolding cached_ready_wait_state raise_if_stale
  ready-Met session state h = ground arith

  -- What a turn with the deadline `d` leaves.
  module _ (d : ℕ) (r : WaitRound) where
    abbrev pub Turn : WaitStep → Type 0
    Turn (matched snapshot app) = Met r.session r.evaluated_at snapshot app
    Turn loop_timed_out = d ≤ r.ended_at
    Turn (wait_failed e) = Unit
    Turn (wait_more st) = (deadline_at st.observation ≡ d) × (leb d r.ended_at ≡ false)
    Turn wait_stuck = ⊥

    end_turn-Turn :
        (st : Waiting)
        → deadline_at st.observation ≡ d
        → Turn (end_turn u info lease predicate r.ended_at st)
    unfolding end_turn timed_out
    end_turn-Turn st h =
        by_if Turn (timed_out st.observation r.ended_at) _ _ (λ late. ground arith)
          (λ early. (h, ground arith))

    end_evaluation-Turn :
        (o : ObservationLoop) (idle : WaitIdleEvaluationState) (state : WaitReadyContext)
        (x : WaitEvaluationOutcome)
        → deadline_at o ≡ d
        → cached_ready_wait_state info lease r.session ≡ ready_state state
        → evaluate_ready_wait_match u predicate state idle r.evaluated_at ≡ x
        → Turn (end_evaluation u info lease predicate r.ended_at o idle x)
    unfolding end_evaluation
    end_evaluation-Turn o idle state (wait_matched snapshot app) h k e =
        let met = ready-Met r.session state k in (met.0, state, idle, met.1, e)
    end_evaluation-Turn o idle state wait_no_match h k e = end_turn-Turn _ h
    end_evaluation-Turn o idle state (wait_idle_tracking next) h k e = end_turn-Turn _ h

    evaluate_turn-Turn :
        (o : ObservationLoop) (idle : WaitIdleEvaluationState)
        → deadline_at o ≡ d
        → Turn (evaluate_turn u info lease predicate r o idle)
    unfolding evaluate_turn
    evaluate_turn-Turn o idle h =
        (elim (cached_ready_wait_state info lease r.session)
            as (λ c.
              cached_ready_wait_state info lease r.session ≡ c
              → Turn (elim c [
                | not_ready_yet ↦
                    end_turn u info lease predicate r.ended_at
                      (record { observation = o; idle_state = idle })
                | ready_failed e ↦ wait_failed e
                | ready_state state ↦
                    end_evaluation u info lease predicate r.ended_at o idle
                      (evaluate_ready_wait_match u predicate state idle r.evaluated_at)
              ])) [
                | not_ready_yet ↦ λ _. end_turn-Turn _ h
                | ready_failed _ ↦ λ _. tt
                | ready_state state ↦ λ k. end_evaluation-Turn o idle state _ h k refl
              ])
          refl

    after_refresh-Turn :
        (o : ObservationLoop) (idle : WaitIdleEvaluationState) (e : Option DaemonError)
        → deadline_at o ≡ d
        → Turn (after_refresh u info lease predicate r o idle e)
    unfolding after_refresh
    after_refresh-Turn o idle none h =
        evaluate_turn-Turn _ idle (deadline-mark r.refreshed_at o ∙ h)
    after_refresh-Turn o idle (some e) h = tt

    after_fetch-Turn :
        (o : ObservationLoop) (idle : WaitIdleEvaluationState)
        (f : Option (Retried RawSnapshot DaemonError))
        → deadline_at o ≡ d
        → Ends r.fetch r.fetch_clock (deadline_at o) transient_invalid_snapshot_max_retries f
        → Turn (after_fetch u info lease predicate r o idle f)
    unfolding after_fetch
    after_fetch-Turn o idle none h e = e
    after_fetch-Turn o idle (some retried) h e =
        elim retried.result
          as (λ f. Turn (elim f [
            | got snapshot ↦ after_refresh u info lease predicate r o idle (r.refresh snapshot)
            | transient e ↦ wait_failed e
            | failed e ↦ wait_failed e
          ])) [
            | got snapshot ↦ after_refresh-Turn o idle (r.refresh snapshot) h
            | transient _ ↦ tt
            | failed _ ↦ tt
          ]

    after_poll-Turn :
        (idle : WaitIdleEvaluationState) (o : ObservationLoop) (outcome : ObservationPollOutcome)
        → deadline_at o ≡ d
        → Turn (after_poll u info lease predicate r idle (answered (outcome, o)))
    unfolding after_poll
    after_poll-Turn idle o outcome h =
        by_if Turn (should_refresh o r.checked_at outcome.saw_events outcome.need_resync) _ _
          (λ _. after_fetch-Turn o idle _ h (
            fetch_with_retry-Ends r.fetch r.fetch_clock (deadline_at o)
              transient_invalid_snapshot_max_retries))
          (λ _. evaluate_turn-Turn o idle h)

    pub wait_round-Turn :
        (st : Waiting)
        → deadline_at st.observation ≡ d
        → Turn (wait_round u info lease predicate r st)
    unfolding wait_round poll after_poll
    wait_round-Turn st h =
        by_if {A = Polled} (λ p. Turn (after_poll u info lease predicate r st.idle_state p))
          (ltb 0 (poll_wait_ms st.observation r.now)) _ _
          (λ _.
            elim r.poll_result
              as (λ p.
                Turn
                  (after_poll u info lease predicate r st.idle_state (polled p st.observation))) [
                    | answered result ↦
                        after_poll-Turn st.idle_state _ (apply_poll_result result st.observation).0
                          (deadline-poll result st.observation ∙ h)
                    | call_failed e ↦ tt
                  ])
          (λ _. after_poll-Turn st.idle_state st.observation (quiet_poll st.observation) h)
