-- ===== src/Waits/Observation.antt =====
-- `ObservationLoop` of observation.py. Times are in milliseconds and do not run backwards, so that a
-- difference of times is one on ℕ.
use androidctl.Prelude.{ℕ, ◌+◌, ◌-◌, min, leb, Bool, true, false, Option, none, some, if◌then◌else◌}

pub record ObservationPolicy : Type 0 where
  pub min_grace_ms : ℕ
  pub snapshot_max_interval_ms : ℕ
  pub stable_window_ms : ℕ
  pub max_total_ms : ℕ
  pub poll_slice_ms : ℕ

-- `EventsPollResult` as far as it is read: whether there are events.
pub record EventsPollResult : Type 0 where
  pub has_events : Bool
  pub need_resync : Bool
  pub latest_seq : ℕ

pub record ObservationPollOutcome : Type 0 where
  pub saw_events : Bool
  pub need_resync : Bool
  pub latest_seq : ℕ

pub record ObservationLoop : Type 0 where
  pub policy : ObservationPolicy
  pub started_at : ℕ
  pub after_seq : ℕ
  pub last_refresh_at : Option ℕ
  pub stable_since : Option ℕ

unfoldable pub begin : ObservationPolicy → ℕ → ObservationLoop
begin policy started_at = record {
  policy = policy;
  started_at = started_at;
  after_seq = 0;
  last_refresh_at = none;
  stable_since = none;
}

unfoldable pub grace_deadline_at : ObservationLoop → ℕ
grace_deadline_at o = o.started_at + o.policy.min_grace_ms

unfoldable pub deadline_at : ObservationLoop → ℕ
deadline_at o = o.started_at + o.policy.max_total_ms

unfoldable pub timed_out : ObservationLoop → ℕ → Bool
unfolding deadline_at
timed_out o now = leb (deadline_at o) now

-- `max(..., 0)` of a difference
unfoldable pub remaining_ms : ObservationLoop → ℕ → ℕ
unfolding deadline_at
remaining_ms o now = deadline_at o - now

unfoldable pub poll_wait_ms : ObservationLoop → ℕ → ℕ
unfolding remaining_ms
poll_wait_ms o now = min o.policy.poll_slice_ms (remaining_ms o now)

unfoldable pub grace_elapsed : ObservationLoop → ℕ → Bool
unfolding grace_deadline_at
grace_elapsed o now = leb (grace_deadline_at o) now

unfoldable pub apply_poll_result :
    EventsPollResult → ObservationLoop → ObservationPollOutcome × ObservationLoop
apply_poll_result result o = (
  record {
    saw_events = result.has_events;
    need_resync = result.need_resync;
    latest_seq = result.latest_seq;
  },
  if result.need_resync
      then record o { after_seq = 0; stable_since = none; last_refresh_at = none }
      else record o { after_seq = result.latest_seq },
)

unfoldable pub should_refresh : ObservationLoop → ℕ → Bool → Bool → Bool
should_refresh o now saw_events need_resync = if need_resync then true else elim o.last_refresh_at [
  | none ↦ true
  | some last ↦ if saw_events then true else leb o.policy.snapshot_max_interval_ms (now - last)
]

unfoldable pub mark_refreshed : ℕ → ObservationLoop → ObservationLoop
mark_refreshed now o = record o { last_refresh_at = some now }

abbrev pub since : Option ℕ → ℕ → ℕ
since none now = now
since (some t) now = t

unfoldable pub observe_stability : ℕ → Bool → ObservationLoop → Bool × ObservationLoop
unfolding grace_elapsed
observe_stability now changed o =
    if changed
    then (false, record o { stable_since = none })
    else let start = since o.stable_since now in
      (
        if grace_elapsed o now then leb o.policy.stable_window_ms (now - start) else false,
        record o { stable_since = some start },
      )
