-- ===== src/Models/Errors.antt =====
-- androidctld/src/androidctld/errors/__init__.py: the codes and the errors of the daemon. A value of
-- `details` keeps what it is rendered from.
use androidctl.Prelude.{ℕ, Text, Bool, Option, List}
use androidctl.Models.Public.{PublicScreen}
use androidctl.Runtime.Models.{ScreenArtifacts}

pub data DaemonErrorCode : Type 0 where
  daemon_bad_request daemon_unauthorized workspace_busy : DaemonErrorCode
  runtime_busy_code runtime_not_connected_code screen_not_ready command_not_found : DaemonErrorCode
  command_cancelled ref_resolution_failed ref_stale target_blocked : DaemonErrorCode
  target_not_actionable wait_timeout device_rpc_failed device_disconnected : DaemonErrorCode
  device_agent_unavailable device_agent_unauthorized : DaemonErrorCode
  device_agent_version_mismatch device_agent_capability_mismatch : DaemonErrorCode
  accessibility_not_ready open_failed action_not_confirmed type_not_confirmed : DaemonErrorCode
  submit_not_confirmed device_rpc_transport_reset internal_command_failure : DaemonErrorCode
  workspace_unavailable artifact_root_unwritable artifact_write_failed : DaemonErrorCode

-- `summary` is `screen_summary(screen, artifacts)`, and `dumped` is `dump_api_model(artifacts)`.
pub data Detail : Type 0 where
  value : Option Text → Detail
  flag : Bool → Detail
  number : ℕ → Detail
  values : List (Option Text) → Detail
  summary : Option PublicScreen → ScreenArtifacts → Detail
  dumped : ScreenArtifacts → Detail

-- `message` is left out: each error below has one fixed message for its code and reason.
pub record DaemonError : Type 0 where
  pub code : DaemonErrorCode
  pub retryable : Bool
  pub details : List (Text × Detail)
  pub http_status : ℕ

-- A call that returns, or raises a `DaemonError`, or the `RuntimeError` of a state that the code takes
-- to be impossible, or a `ValueError` that nothing below catches.
pub data Raised (A : Type 0) : Type 0 where
  returned : A → Raised A
  daemon_error : DaemonError → Raised A
  runtime_error : Raised A
  value_error : Raised A

-- What a statement that may raise passes on to the next.
abbrev pub and_then : {A B : Type 0} → Raised A → (A → Raised B) → Raised B
and_then (returned a) f = f a
and_then (daemon_error e) f = daemon_error e
and_then runtime_error f = runtime_error
and_then value_error f = value_error
