-- ===== src/Artifacts/Lookup.antt =====
-- androidctld/src/androidctld/artifacts/screen_lookup.py: the newest artifact of a screen, among those
-- that the scan found.
use androidctl.Prelude.{
  Text, opt_text_eq, text_lt, is_some, Bool, true, false, ◌&&◌, ◌||◌, not, Option, none, some, List,
  [], ◌∷◌, keep_if, if◌then◌else◌,
}
use androidctl.Prelude.Int.{ℤ, negsuc, int_lt, int_eq}
use androidctl.Prelude.Sort.{sort}
use androidctl.TextEquivalence.{Unicode}
use androidctl.Models.Errors.{Raised, returned, runtime_error, and_then}
use androidctl.Runtime.Models.{Runtime}
use androidctl.Artifacts.Payloads.{ScreenArtifactPayload}
use androidctl.Artifacts.Scan.{
  ArtifactFiles, ScreenArtifactScan, is_valid, path_name, scan_candidates,
}

pub data SourceScreenArtifactStatus : Type 0 where
  found not_found invalid_artifact : SourceScreenArtifactStatus

-- `scanned` keeps the scans; a candidate's path is that of its scan.
pub record SourceScreenArtifactLookup : Type 0 where
  pub status : SourceScreenArtifactStatus
  pub source_screen_id : Text
  pub path : Option Text
  pub payload : Option ScreenArtifactPayload
  pub scanned : List ScreenArtifactScan

abbrev pub is_matching : Text → ScreenArtifactScan → Bool
is_matching id a = opt_text_eq a.screen_id (some id)

-- `matching_candidates`
abbrev pub matching : Text → List ScreenArtifactScan → List ScreenArtifactScan
matching id scans = keep_if (is_matching id) scans

-- `unknown_screen_candidates`
abbrev pub unknown_screen : Text → List ScreenArtifactScan → List ScreenArtifactScan
unknown_screen id scans =
    keep_if (λ a. not (is_matching id a) && (not (is_some a.screen_id) && not (is_valid a.status)))
      scans

-- `-1 if artifact.sequence is None else artifact.sequence`
abbrev pub sequence_key : ScreenArtifactScan → ℤ
sequence_key a = elim a.sequence [ none ↦ negsuc 0 | some n ↦ n ]

-- `a` stands before `b` in the descending sort by sequence and name.
unfoldable pub newer : ScreenArtifactScan → ScreenArtifactScan → Bool
newer a b =
    int_lt (sequence_key b) (sequence_key a)
    || (int_eq (sequence_key b) (sequence_key a) && text_lt (path_name b.path) (path_name a.path))

abbrev pub first : List ScreenArtifactScan → Option ScreenArtifactScan
first [] = none
first (a ∷ _) = some a

unfoldable pub newest : List ScreenArtifactScan → Option ScreenArtifactScan
unfolding newer
newest scans = first (sort newer scans)

-- `sorted(unknown_sequence_invalid, key=name, reverse=True)[0]`
abbrev pub last_named : List ScreenArtifactScan → Option ScreenArtifactScan
last_named scans = first (
    sort (λ a b. text_lt (path_name b.path) (path_name a.path))
      (keep_if (λ a. not (is_some a.sequence)) scans))

-- Whether the newest artifact of an unknown screen may be newer than the match.
unfoldable pub may_be_newer : Option ℤ → Option ℤ → Bool
may_be_newer (some n) (some m) = not (int_lt n m)
may_be_newer _ _ = true

abbrev pub invalid : Text → Text → List ScreenArtifactScan → SourceScreenArtifactLookup
invalid id p scanned = record {
  status = invalid_artifact;
  source_screen_id = id;
  path = some p;
  payload = none;
  scanned = scanned;
}

-- The result for the selected match.
unfoldable pub use_match :
    Text → ScreenArtifactScan → List ScreenArtifactScan → Raised SourceScreenArtifactLookup
use_match id a scanned = elim (is_valid a.status) [
  | false ↦ returned (invalid id a.path scanned)
  | true ↦ elim a.payload [
    | none ↦ runtime_error
    | some p ↦ returned (record {
      status = found;
      source_screen_id = id;
      path = some a.path;
      payload = some p;
      scanned = scanned;
    })
  ]
]

-- The choice between the newest match and the newest artifact of an unknown screen.
unfoldable pub choose_match :
    Text
    → ScreenArtifactScan
    → Option ScreenArtifactScan
    → List ScreenArtifactScan
    → Raised SourceScreenArtifactLookup
unfolding use_match may_be_newer
choose_match id a none scanned = use_match id a scanned
choose_match id a (some b) scanned =
    if may_be_newer b.sequence a.sequence
    then returned (invalid id b.path scanned)
    else use_match id a scanned

-- The choice once there is a match.
unfoldable pub after_match :
    Text → List ScreenArtifactScan → ScreenArtifactScan → Raised SourceScreenArtifactLookup
unfolding choose_match newest
after_match id scanned a = elim (last_named (unknown_screen id scanned)) [
  | some b ↦ returned (invalid id b.path scanned)
  | none ↦ choose_match id a (newest (unknown_screen id scanned)) scanned
]

unfoldable pub lookup_scanned : Text → List ScreenArtifactScan → Raised SourceScreenArtifactLookup
unfolding after_match newest
lookup_scanned id scanned = elim (newest (matching id scanned)) [
  | none ↦ returned (record {
    status = not_found;
    source_screen_id = id;
    path = none;
    payload = none;
    scanned = scanned;
  })
  | some a ↦ after_match id scanned a
]

unfoldable pub lookup_source_screen_artifact :
    Unicode → ArtifactFiles → Runtime → Text → Raised SourceScreenArtifactLookup
unfolding lookup_scanned scan_candidates
lookup_source_screen_artifact u files r id =
    and_then (scan_candidates u files r) (lookup_scanned id)
