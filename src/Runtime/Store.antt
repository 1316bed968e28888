-- ===== src/Runtime/Store.antt =====
-- runtime/store.py and runtime/state_repo.py: the one runtime of a workspace, its persisted state,
-- and the admission of one public command at a time.
use androidctl.Prelude.{ℕ, Text, text_eq, false, Option, none, some, ◌≡◌, arith, if◌then◌else◌}
use androidctl.Models.Refs.{empty_registry}
use androidctl.Runtime.Models.{Runtime, RuntimeStatus, fresh, is_ready, RuntimeStateFile, World, ok}
use androidctl.Runtime.Lifecycle.{
  status_for_persisted_runtime, commit_runtime, normalize_stale_ready_runtime,
}

-- `WorkspaceRuntime(...)` with its defaults
abbrev pub new_runtime : RuntimeStatus → ℕ → Runtime
new_runtime status screen_sequence = record {
  status = status;
  screen_sequence = screen_sequence;
  current_screen_id = none;
  connection = none;
  device_token = none;
  device_capabilities = none;
  transport = none;
  latest_snapshot = none;
  previous_snapshot = none;
  screen_state = none;
  ref_registry = empty_registry;
  progress_lock = false;
  progress_occupant_kind = none;
  lifecycle_revision = 0;
}

-- `RuntimeStateRepository.load`, after the file's payload has been validated
unfoldable pub load : Option RuntimeStateFile → Option Runtime
load none = none
load (some f) = some (new_runtime f.status f.screen_sequence)

-- `RuntimeStore.get_runtime`: the runtime that the store holds, or the one that it makes.
unfoldable pub get_runtime : Option Runtime → Option RuntimeStateFile → Runtime
unfolding load
get_runtime (some r) file = r
get_runtime none file = elim (load file) [ none ↦ new_runtime fresh 0 | some r ↦ r ]

-- Once a runtime's state is persisted, a daemon that starts on it, whatever else the world holds, has a
-- runtime with the persisted status, which is never ready, the same sequence of screens, no
-- transport and no screen; and normalizing it changes nothing.
pub restart_is_disconnected :
    (w w' : World)
    → commit_runtime w ≡ (ok tt, w')
    → let r = get_runtime none w'.state_file in
      let started = record w' { runtime = r } in
      (r.status ≡ status_for_persisted_runtime w.runtime.status)
      × (is_ready r.status ≡ false)
      × (r.screen_sequence ≡ w.runtime.screen_sequence)
      × (r.transport ≡ none)
      × (r.screen_state ≡ none)
      × (normalize_stale_ready_runtime started ≡ (ok false, started))
unfolding commit_runtime get_runtime normalize_stale_ready_runtime
restart_is_disconnected w w' h = ground arith

-- `RuntimeStore` as far as `begin_serial_command` uses it.
pub record SerialStore : Type 0 where
  pub active_command : Option Text

pub data Admission (A : Type 0) : Type 0 where
  busy : Admission A
  admitted : A → Admission A

-- the `finally` of `begin_serial_command`
abbrev finish : Text → SerialStore → SerialStore
finish name s = elim s.active_command [
  | none ↦ s
  | some active ↦ if text_eq active name then record { active_command = none } else s
]

-- `with store.begin_serial_command(name): body`; the body may use the store, and an exception of
-- the body is a value of `A`.
unfoldable pub with_serial_command :
    {A : Type 0} → Text → (SerialStore → A × SerialStore) → SerialStore → Admission A × SerialStore
with_serial_command name body s = elim s.active_command [
  | some _ ↦ (busy, s)
  | none ↦
      let (a, s') = body (record { active_command = some name }) in (admitted a, finish name s')
]
