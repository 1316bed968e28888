-- ===== src/Actions/Tests.antt =====
-- Tests of the actions on a concrete screen.
use androidctl.Prelude.{
  ℕ, ◌+◌, arith, text, text_eq, true, false, none, some, [], ◌∷◌, ◌++◌, ◌≡◌, refl,
}
use androidctl.Models.Errors.{returned}
use androidctl.TextEquivalence.{canonical_text_key}
use androidctl.Waits.Observation.{
  should_refresh, poll_wait_ms, begin, observe_stability, mark_refreshed, timed_out,
}
use androidctl.Models.Commands.{
  settle_max_total_ms, settle_min_grace_ms, settle_stable_window_ms,
  settle_snapshot_max_interval_ms, tap_kind,
}
use androidctl.Models.Samples.{ascii, screen}
use androidctl.Runtime.Samples.{snapshot, public_screen, shown_runtime}
use androidctl.Artifacts.Samples.{artifact_files}
use androidctl.Waits.Signature.{ScreenSignature, signature_eq, settle_screen_signature}
use androidctl.Waits.Retry.{got, fetch_with_retry}
use androidctl.Actions.Settle.{
  SettleRound, Settling, settled, more, settle_policy, start_settling, settle_round, settle,
}
use androidctl.Actions.SettleEnds.{is_over, settle_ends}
use androidctl.Actions.SettleQuiet.{begun, turned, observed_by, StableEnd, settle_is_quiet}
use androidctl.Actions.Confirm.{validate_type_confirmation}
use androidctl.Actions.Focus.{validate_focus_confirmation}
use androidctl.Actions.Outcomes.{
  TypeOutcome, FocusOutcome, validate_type-TypeOutcome, validate_focus-FocusOutcome,
}
use androidctl.Actions.Submit.{done, direct, same_target, validate_submit_confirmation}
use androidctl.Actions.Route.{resolve_submit_route}
use androidctl.Actions.Routed.{RouteOutcome, resolve_submit_route-RouteOutcome}
use androidctl.Models.Evidence.{live_ref}
use androidctl.Runtime.Screen.{current_public_screen, current_compiled_screen}
use androidctl.Actions.Submitted.{SubmitOutcome, validate_submit-SubmitOutcome}
use androidctl.Actions.Repair.{repair_action_binding}
use androidctl.Actions.Repaired.{HandleOutcome, repair_action-HandleOutcome}
use androidctl.Actions.Samples.{
  input, with_input, type_context, focus_context, same_again, tap_command, sent_to, blurred_input,
  input_runtime, submit_command, input_handle, direct_route,
}

-- A turn that begins at a time, with the same screen.
abbrev turn : ℕ → SettleRound
turn now = record {
  now = now;
  poll_result = none;
  checked_at = now + 100;
  fetch = λ _. got snapshot;
  fetch_clock = λ _. now + 100;
  refreshed_at = now + 110;
  observed_at = now + 120;
  ended_at = now + 120;
}

abbrev baseline : ScreenSignature
baseline = settle_screen_signature ascii screen

settle_ends_example :
    is_over (
      settle ascii
        (λ _. screen)
        ((turn 1000 ∷ []) ++ turn 2300 ∷ [])
        (start_settling tap_kind 1000 baseline))
    ≡ true
unfolding settle_max_total_ms
settle_ends_example =
    settle_ends ascii (λ _. screen) tap_kind 1000 baseline (turn 1000 ∷ []) [] (turn 2300)
      (omega arith) (omega arith)

abbrev kept : Settling
kept = record {
  observation = record {
    policy = settle_policy tap_kind;
    started_at = 1000;
    after_seq = 0;
    last_refresh_at = some 1110;
    stable_since = some 1120;
  };
  latest_snapshot = some snapshot;
  latest_signature = baseline;
}

first_turn :
    settle_round ascii (λ _. screen) (turn 1000) (start_settling tap_kind 1000 baseline) ≡ more kept
unfolding settle_round should_refresh poll_wait_ms start_settling begin settle_max_total_ms
    fetch_with_retry observe_stability signature_eq settle_screen_signature text_eq
    canonical_text_key mark_refreshed settle_min_grace_ms timed_out
first_turn = refl

second_turn : settle_round ascii (λ _. screen) (turn 1400) kept ≡ settled snapshot false
unfolding settle_round should_refresh poll_wait_ms start_settling begin settle_max_total_ms
    fetch_with_retry observe_stability signature_eq settle_screen_signature text_eq
    canonical_text_key mark_refreshed settle_min_grace_ms timed_out settle_snapshot_max_interval_ms
    settle_stable_window_ms
second_turn = refl

settle_is_quiet_example :
    StableEnd ascii
      (λ _. screen)
      tap_kind
      1000
      (turn 1400)
      snapshot
      (observed_by ascii
        (λ _. screen)
        tap_kind
        1000
        (turn 1400)
        kept
        (observed_by ascii
          (λ _. screen)
          tap_kind
          1000
          (turn 1000)
          (start_settling tap_kind 1000 baseline)
          []))
settle_is_quiet_example =
    settle_is_quiet ascii (λ _. screen) tap_kind 1000 baseline kept
      (observed_by ascii (λ _. screen) tap_kind 1000 (turn 1000)
        (start_settling tap_kind 1000 baseline) [])
      (turn 1400) snapshot (turned (turn 1000) begun first_turn) second_turn

validate_type-TypeOutcome_example :
    TypeOutcome ascii shown_runtime with_input
      (text " hello ")
      type_context
      none
      (validate_type_confirmation ascii shown_runtime (text " hello ") with_input type_context none)
validate_type-TypeOutcome_example =
    validate_type-TypeOutcome ascii shown_runtime with_input (text " hello ") type_context none

validate_focus-FocusOutcome_example :
    FocusOutcome ascii shown_runtime with_input
      (some snapshot)
      focus_context
      (validate_focus_confirmation ascii shown_runtime (some snapshot) with_input focus_context)
validate_focus-FocusOutcome_example =
    validate_focus-FocusOutcome ascii shown_runtime with_input (some snapshot) focus_context

repair_action-HandleOutcome_example :
    HandleOutcome ascii artifact_files
      (text "/w")
      same_again
      shown_runtime
      (repair_action_binding ascii artifact_files (text "/w") same_again shown_runtime tap_command)
repair_action-HandleOutcome_example =
    repair_action-HandleOutcome ascii artifact_files (text "/w") same_again shown_runtime
      tap_command

validate_submit-SubmitOutcome_example :
    SubmitOutcome ascii blurred_input
      (some snapshot)
      (some public_screen)
      public_screen
      direct
      done
      (some sent_to)
      (returned (record {
        status = same_target;
        node = some (record input { focused = false });
        target_handle = sent_to;
      }))
unfolding validate_submit_confirmation text_eq
validate_submit-SubmitOutcome_example =
    validate_submit-SubmitOutcome ascii blurred_input (some snapshot) (some public_screen)
      public_screen direct (some shown_runtime) none done (some sent_to)

routed_directly :
    resolve_submit_route input_runtime submit_command (some input_handle) live_ref
    ≡ returned direct_route
unfolding resolve_submit_route text_eq
routed_directly = refl

resolve_submit_route-RouteOutcome_example :
    RouteOutcome
      (current_public_screen input_runtime)
      (current_compiled_screen input_runtime)
      input_runtime.latest_snapshot
      (some input_handle)
      (resolve_submit_route input_runtime submit_command (some input_handle) live_ref)
resolve_submit_route-RouteOutcome_example =
    resolve_submit_route-RouteOutcome input_runtime submit_command (some input_handle) live_ref
