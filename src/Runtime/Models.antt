-- ===== src/Runtime/Models.antt =====
-- runtime/models.py, with the types that the runtime holds: `RuntimeStatus` of protocol.py, the
-- connection types of device/types.py and `ScreenArtifacts` of artifacts/models.py.
-- The paths of the workspace are fixed for a daemon and are not kept.
use androidctl.Prelude.{ℕ, Text, Bool, true, false, Option, List}
use androidctl.Models.Snapshots.{RawSnapshot}
use androidctl.Models.Semantic.{CompiledScreen}
use androidctl.Models.Public.{PublicScreen}
use androidctl.Models.Refs.{RefRegistry}
use androidctl.Artifacts.Files.{Fs, OsError}

pub data RuntimeStatus : Type 0 where
  fresh bootstrapping connected ready broken closed : RuntimeStatus

-- `self is RuntimeStatus.READY`
abbrev pub is_ready : RuntimeStatus → Bool
is_ready ready = true
is_ready _ = false

pub data ConnectionMode : Type 0 where
  adb lan : ConnectionMode

pub record ConnectionSpec : Type 0 where
  pub mode : ConnectionMode
  pub port : ℕ
  pub serial : Option Text
  pub host : Option Text

pub record ConnectionConfig : Type 0 where
  pub mode : ConnectionMode
  pub token : Text
  pub serial : Option Text
  pub host : Option Text
  pub port : ℕ

-- `ConnectionSpec.to_connection_config`
unfoldable pub to_connection_config : ConnectionSpec → Text → ConnectionConfig
to_connection_config c token = record {
  mode = c.mode;
  token = token;
  serial = c.serial;
  host = c.host;
  port = c.port;
}

pub record DeviceCapabilities : Type 0 where
  pub supports_events_poll : Bool
  pub supports_screenshot : Bool
  pub action_kinds : List Text

-- `close` is a callback of the connector; `handle` is the identity of what it closes.
pub record RuntimeTransport : Type 0 where
  pub host : Text
  pub port : ℕ
  pub handle : ℕ

pub record BootstrapResult : Type 0 where
  pub connection : ConnectionSpec
  pub transport : RuntimeTransport
  pub capabilities : DeviceCapabilities

pub record ScreenArtifacts : Type 0 where
  pub screen_json : Option Text
  pub screen_xml : Option Text
  pub screenshot_png : Option Text

pub record ScreenState : Type 0 where
  pub public_screen : Option PublicScreen
  pub compiled_screen : Option CompiledScreen
  pub artifacts : Option ScreenArtifacts

-- `WorkspaceRuntime`; `progress_lock` says whether the lock is held.
pub record Runtime : Type 0 where
  pub status : RuntimeStatus
  pub screen_sequence : ℕ
  pub current_screen_id : Option Text
  pub connection : Option ConnectionSpec
  pub device_token : Option Text
  pub device_capabilities : Option DeviceCapabilities
  pub transport : Option RuntimeTransport
  pub latest_snapshot : Option RawSnapshot
  pub previous_snapshot : Option RawSnapshot
  pub screen_state : Option ScreenState
  pub ref_registry : RefRegistry
  pub progress_lock : Bool
  pub progress_occupant_kind : Option Text
  pub lifecycle_revision : ℕ

-- `RuntimeStateFile`, without the time of its writing.
pub record RuntimeStateFile : Type 0 where
  pub status : RuntimeStatus
  pub screen_sequence : ℕ

-- The runtime with what its operations touch outside: the files, the persisted state and the
-- transports that have been closed, the last one first.
pub record World : Type 0 where
  pub runtime : Runtime
  pub fs : Fs
  pub state_file : Option RuntimeStateFile
  pub closed_transports : List RuntimeTransport

-- The exceptions of the kernel's operations. `cancelled` is what a `pre_commit` raises.
pub data Failure : Type 0 where
  os_failure : OsError → Failure
  runtime_busy runtime_not_connected cancelled lock_not_held : Failure

pub data Result (A : Type 0) : Type 0 where
  ok : A → Result A
  err : Failure → Result A

abbrev pub Run : Type 0 → Type 0
Run A = Result A × World
