-- ===== src/Runtime/Samples.antt =====
-- Concrete runtimes, screens and files for the tests.
use androidctl.Prelude.{text, true, false, none, some, [], ◌∷◌}
use androidctl.Models.Snapshots.{RawSnapshot}
use androidctl.Models.Semantic.{CompiledScreen}
use androidctl.Models.Public.{PublicScreen}
use androidctl.Models.Refs.{empty_registry}
use androidctl.Artifacts.Files.{update}
use androidctl.Artifacts.Single.{fresh}
use androidctl.Models.Samples.{screen}
use androidctl.Runtime.Models.{Runtime, ready, adb, RuntimeTransport, BootstrapResult, World}
use androidctl.Runtime.ScreenCommit.{ScreenRefreshUpdate}
use androidctl.Runtime.Store.{new_runtime}

abbrev pub transport : RuntimeTransport
transport = record { host = text "127.0.0.1"; port = 17171; handle = 1 }

abbrev pub bootstrap_result : BootstrapResult
bootstrap_result = record {
  connection = record {
    mode = adb;
    port = 17171;
    serial = some (text "emulator-5554");
    host = none;
  };
  transport = record { host = text "127.0.0.1"; port = 17171; handle = 2 };
  capabilities = record {
    supports_events_poll = true;
    supports_screenshot = true;
    action_kinds = text "tap" ∷ [];
  };
}

abbrev pub snapshot : RawSnapshot
snapshot = record {
  snapshot_id = 7;
  captured_at = text "12:00";
  package_name = some (text "com.example");
  activity_name = none;
  ime = record { visible = false; window_id = none };
  windows = [];
  nodes = [];
  display = [];
}

abbrev pub public_screen : PublicScreen
public_screen = record {
  screen_id = text "screen-3";
  app = record {
    package_name = some (text "com.example");
    activity_name = none;
    requested_package_name = none;
    resolved_package_name = none;
    match_type = none;
  };
  surface = record {
    keyboard_visible = false;
    blocking_group = none;
    focus = record { input_ref = none };
  };
  groups = [];
  omitted = [];
  visible_windows = [];
  transient = [];
}

abbrev pub compiled_screen : CompiledScreen
compiled_screen = record {
  screen_id = text "screen-3";
  sequence = 3;
  source_snapshot_id = 7;
  captured_at = text "12:00";
  package_name = some (text "com.example");
  activity_name = none;
  keyboard_visible = false;
  action_surface_fingerprint = text "f";
  blocking_group = none;
  targets_nodes = [];
  context_nodes = [];
  dialog_nodes = [];
  keyboard_nodes = [];
  system_nodes = [];
}

abbrev pub screen_update : ScreenRefreshUpdate
screen_update = record {
  sequence = 3;
  snapshot = snapshot;
  public_screen = public_screen;
  compiled_screen = compiled_screen;
  artifacts = record {
    screen_json = some (text "a.json");
    screen_xml = none;
    screenshot_png = none;
  };
  ref_registry = empty_registry;
  staged_artifacts = fresh (text "s") (text "a.json") (text "b") ∷ [];
}

-- A connected runtime with its staged file.
abbrev pub world : World
world = record {
  runtime = record (new_runtime ready 2) { transport = some transport };
  fs = record {
    files =
        update (update (λ _. none) (text "s") (some (text "new"))) (text "a.json")
          (some (text "old"));
    faults = [];
  };
  state_file = none;
  closed_transports = [];
}

-- The same, where the last file call of the commit is refused.
abbrev pub faulty_world : World
faulty_world = record world {
  fs = record (world.fs) { faults = false ∷ false ∷ false ∷ true ∷ [] };
}

-- A runtime that shows a screen with three nodes, in the snapshot that it was compiled from.
abbrev pub shown_runtime : Runtime
shown_runtime = record (new_runtime ready 1) {
  current_screen_id = some (text "s1");
  latest_snapshot = some (record snapshot { snapshot_id = 4 });
  screen_state = some (record {
    public_screen = some (record public_screen { screen_id = text "s1" });
    compiled_screen = some screen;
    artifacts = none;
  });
}
