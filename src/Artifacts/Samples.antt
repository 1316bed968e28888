-- ===== src/Artifacts/Samples.antt =====
-- A concrete artifact of an earlier screen, for the tests.
use androidctl.Prelude.{text, true, some, [], ◌∷◌}
use androidctl.Prelude.Int.{pos}
use androidctl.Models.Samples.{registry}
use androidctl.Runtime.Samples.{public_screen}
use androidctl.Artifacts.Payloads.{ScreenArtifactPayload, build_screen_artifact_payload}
use androidctl.Artifacts.Scan.{ArtifactFiles, json_object}

abbrev pub payload : ScreenArtifactPayload
payload =
    build_screen_artifact_payload (record public_screen { screen_id = text "s0" }) registry 1 3
      (text "11:59")

-- One file, which holds the payload.
abbrev pub artifact_files : ArtifactFiles
artifact_files = record {
  exists = λ _. true;
  resolve = λ p. p;
  glob_obs = some (text "/w/screens/obs-00001.json" ∷ []);
  read_artifact = λ _. json_object (some (text "s0")) (some (pos 1)) (some payload);
}
