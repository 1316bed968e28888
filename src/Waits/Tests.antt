-- ===== src/Waits/Tests.antt =====
-- Tests of the waits on concrete observations.
use androidctl.Prelude.{
  ℕ, zero, suc, ◌+◌, ◌-◌, ◌*◌, ◌≤◌, text, true, false, none, some, [], ◌∷◌, ◌++◌, ◌≡◌, refl, arith,
}
use androidctl.Models.Samples.{ascii}
use androidctl.Models.Snapshots.{RawSnapshot}
use androidctl.Models.Semantic.{CompiledScreen}
use androidctl.Waits.Observation.{ObservationPolicy, observe_stability}
use androidctl.Waits.Stability.{after, QuietSince, stable_is_quiet}
use androidctl.Waits.Signature.{signature_eq, compiled_screen_signature}
use androidctl.Waits.Evaluators.{wait_idle_stable_window_ms, evaluate_idle_wait, screen_change}
use androidctl.Waits.Idle.{idle_after, SameSince, is_match, idle_match_is_quiet}
use androidctl.Runtime.Lifecycle.{capture_lifecycle_lease}
use androidctl.Runtime.Cancel.{CommandInfo}
use androidctl.Runtime.Samples.{shown_runtime}
use androidctl.Models.Commands.{wait_kind}
use androidctl.Waits.Loop.{WaitCommand, answered, WaitRound, run}
use androidctl.Waits.Answers.{is_over, RunTold, wait_ends, run-RunTold}
use androidctl.Waits.Retry.{Fetched, got, transient, fetch_with_retry, Ends, fetch_with_retry-Ends}

-- The policy after an action other than `open`.
abbrev policy : ObservationPolicy
policy = record {
  min_grace_ms = 200;
  snapshot_max_interval_ms = 250;
  stable_window_ms = 300;
  max_total_ms = 1200;
  poll_slice_ms = 100;
}

stable :
    (observe_stability 1700 false (after policy 1000 ((1400, false) ∷ (1250, true) ∷ []))).0 ≡ true
unfolding observe_stability after
stable = refl

stable_is_quiet_example :
    (false ≡ false)
    × (1000 + policy.min_grace_ms ≤ 1700)
    × (t : ℕ) × QuietSince t ((1700, false) ∷ (1400, false) ∷ (1250, true) ∷ [])
    × (policy.stable_window_ms ≤ 1700 - t)
stable_is_quiet_example =
    stable_is_quiet policy 1000 ((1400, false) ∷ (1250, true) ∷ []) 1700 false stable

abbrev snapshot : RawSnapshot
snapshot = record {
  snapshot_id = 1;
  captured_at = text "12:00";
  package_name = none;
  activity_name = none;
  ime = record { visible = false; window_id = none };
  windows = [];
  nodes = [];
  display = [];
}

abbrev screen : CompiledScreen
screen = record {
  screen_id = text "s1";
  sequence = 1;
  source_snapshot_id = 1;
  captured_at = text "12:00";
  package_name = none;
  activity_name = none;
  keyboard_visible = false;
  action_surface_fingerprint = text "f";
  blocking_group = none;
  targets_nodes = [];
  context_nodes = [];
  dialog_nodes = [];
  keyboard_nodes = [];
  system_nodes = [];
}

idle_matched :
    is_match (
      evaluate_idle_wait ascii snapshot
        (some screen)
        (idle_after ascii snapshot ((100, screen) ∷ []))
        650)
    ≡ true
unfolding evaluate_idle_wait idle_after signature_eq compiled_screen_signature
idle_matched = refl

idle_match_is_quiet_example :
    (t : ℕ) × SameSince ascii snapshot t ((650, screen) ∷ (100, screen) ∷ [])
    × (wait_idle_stable_window_ms ≤ 650 - t)
idle_match_is_quiet_example =
    idle_match_is_quiet ascii snapshot ((100, screen) ∷ []) 650 screen idle_matched

-- The device answers at the second attempt.
abbrev device : ℕ → Fetched ℕ ℕ
device zero = transient 1
device (suc _) = got 7

fetch_with_retry-Ends_example :
    Ends device (λ k. 1000 + 60 * k) 1200 2 (fetch_with_retry device (λ k. 1000 + 60 * k) 1200 2)
fetch_with_retry-Ends_example = fetch_with_retry-Ends device (λ k. 1000 + 60 * k) 1200 2

abbrev info : CommandInfo
info = record {
  workspace_root = text "/w";
  command_id = none;
  kind = some wait_kind;
  wait_name = some (text "screen-change");
}

-- A wait for another screen than the one that is shown.
abbrev command : WaitCommand
command = record { predicate = screen_change (text "s1"); timeout_ms = some 500 }

-- A turn that begins at a time, without a new event.
abbrev turn : ℕ → WaitRound
turn now = record {
  now = now;
  poll_result = answered (record { has_events = false; need_resync = false; latest_seq = 0 });
  checked_at = now + 250;
  fetch = λ _. got snapshot;
  fetch_clock = λ _. now + 250;
  refreshed_at = now + 260;
  refresh = λ _. none;
  session = shown_runtime;
  evaluated_at = now + 270;
  ended_at = now + 270;
}

wait_ends_example :
    is_over (
      run ascii info
        (capture_lifecycle_lease shown_runtime)
        command
        none
        shown_runtime
        1000
        ((turn 1000 ∷ []) ++ turn 1300 ∷ []))
    ≡ true
wait_ends_example =
    wait_ends ascii info (capture_lifecycle_lease shown_runtime) command none shown_runtime 1000
      (turn 1000 ∷ []) [] (turn 1300) (omega arith)

run-RunTold_example :
    RunTold ascii info
      (capture_lifecycle_lease shown_runtime)
      command
      none
      shown_runtime
      1000
      (turn 1000 ∷ turn 1300 ∷ [])
      (run ascii info
        (capture_lifecycle_lease shown_runtime)
        command
        none
        shown_runtime
        1000
        (turn 1000 ∷ turn 1300 ∷ []))
run-RunTold_example =
    run-RunTold ascii info (capture_lifecycle_lease shown_runtime) command none shown_runtime 1000
      (turn 1000 ∷ turn 1300 ∷ [])
