-- ===== src/Artifacts/Scan.antt =====
-- androidctld/src/androidctld/artifacts/screen_lookup.py: the scan of the artifacts of the workspace.
-- What the files hold is a parameter: reading, JSON and the validation of the payload are calls of
-- libraries.
use androidctl.Prelude.{
  ℕ, ◌+◌, ◌*◌, Text, text, text_eq, text_lt, nat_eq, is_some, nonempty, any, not, ◌&&◌, Bool, true,
  false, Option, none, some, List, [], ◌∷◌, ◌++◌, map, if◌then◌else◌,
}
use androidctl.Prelude.Int.{ℤ, pos}
use androidctl.Prelude.Sort.{sort}
use androidctl.TextEquivalence.{Unicode}
use androidctl.Models.Errors.{Raised, returned, value_error, and_then}
use androidctl.Runtime.Models.{Runtime}
use androidctl.Artifacts.Payloads.{ScreenArtifactPayload}

-- What `read_text`, `json.loads` and `model_validate_json` make of a file: the two fields are those
-- of the raw object that are a `str` and an `int`.
pub data ArtifactRead : Type 0 where
  read_error not_json not_object : ArtifactRead
  json_object : Option Text → Option ℤ → Option ScreenArtifactPayload → ArtifactRead

-- The calls of `pathlib`; `glob_obs` is `screens_dir.glob("obs-*.json")` where it exists.
pub record ArtifactFiles : Type 0 where
  pub exists : Text → Bool
  pub resolve : Text → Text
  pub glob_obs : Option (List Text)
  pub read_artifact : Text → ArtifactRead

pub data ArtifactScanStatus : Type 0 where
  valid malformed unreadable : ArtifactScanStatus

pub record ScreenArtifactScan : Type 0 where
  pub path : Text
  pub status : ArtifactScanStatus
  pub screen_id : Option Text
  pub sequence : Option ℤ
  pub payload : Option ScreenArtifactPayload

abbrev pub is_valid : ArtifactScanStatus → Bool
is_valid valid = true
is_valid _ = false

-- `path.name`: what follows the last `/`.
unfoldable pub name_after : Text → Text → Text
name_after [] last = last
name_after (c ∷ s) last = name_after s (if nat_eq c b'/' then [] else last ++ c ∷ [])

unfoldable pub path_name : Text → Text
unfolding name_after
path_name p = name_after p []

-- `s[len(prefix):]` where `s` starts with the prefix.
unfoldable pub without_prefix : Text → Text → Option Text
without_prefix [] s = some s
without_prefix (c ∷ p) [] = none
without_prefix (c ∷ p) (d ∷ s) = if nat_eq c d then without_prefix p s else none

abbrev cons_some : ℕ → Option Text → Option Text
cons_some c none = none
cons_some c (some s) = some (c ∷ s)

-- `s[:-len(suffix)]` where `s` ends with the suffix.
unfoldable pub without_suffix : Text → Text → Option Text
without_suffix suffix [] = none
without_suffix suffix (c ∷ s) =
    let rest = without_suffix suffix s in
    if text_eq (c ∷ s) suffix then some [] else cons_some c rest

-- `int(digits)`, read from the left; `none` is its ValueError.
unfoldable pub int_of_digits : Unicode → Text → ℕ → Option ℤ
int_of_digits u [] acc = some (pos acc)
int_of_digits u (c ∷ s) acc = elim (u.decimal c) [
  | none ↦ none
  | some d ↦ int_of_digits u s (acc * 10 + d)
]

-- `digits.isdigit()`
abbrev pub isdigit : Unicode → Text → Bool
isdigit u s = nonempty s && not (any (λ c. not (u.is_digit c)) s)

abbrev pub int_or_raise : Option ℤ → Raised (Option ℤ)
int_or_raise none = value_error
int_or_raise (some n) = returned (some n)

-- The digits of a name; `int` refuses some that `isdigit` accepts.
abbrev pub int_of : Unicode → Text → Raised (Option ℤ)
int_of u digits =
    if not (isdigit u digits) then returned none else int_or_raise (int_of_digits u digits 0)

unfoldable pub sequence_from_artifact_path : Unicode → Text → Raised (Option ℤ)
unfolding path_name without_prefix without_suffix int_of_digits
sequence_from_artifact_path u p = elim (without_prefix (text "obs-") (path_name p)) [
  | none ↦ returned none
  | some rest ↦ elim (without_suffix (text ".json") rest) [
    | none ↦ returned none
    | some digits ↦ int_of u digits
  ]
]

unfoldable pub is_internal_screen_artifact_path : Unicode → Text → Raised Bool
unfolding sequence_from_artifact_path
is_internal_screen_artifact_path u p =
    and_then (sequence_from_artifact_path u p) (λ n. returned (is_some n))

-- A scan without a payload.
abbrev pub bad_scan : Text → ArtifactScanStatus → Option Text → Option ℤ → ScreenArtifactScan
bad_scan p status screen_id sequence = record {
  path = p;
  status = status;
  screen_id = screen_id;
  sequence = sequence;
  payload = none;
}

-- `sequence_hint`
unfoldable pub sequence_hint : Unicode → Text → Option ℤ → Raised (Option ℤ)
unfolding sequence_from_artifact_path
sequence_hint u p (some n) = returned (some n)
sequence_hint u p none = sequence_from_artifact_path u p

-- The scan of an object, after the hint.
abbrev pub hinted :
    Text → Option Text → Option ScreenArtifactPayload → Option ℤ → ScreenArtifactScan
hinted p screen_id none sequence = bad_scan p malformed screen_id sequence
hinted p screen_id (some payload) sequence = record {
  path = p;
  status = valid;
  screen_id = some payload.screen_id;
  sequence = some payload.sequence;
  payload = some payload;
}

-- The scan of a file without an object.
abbrev pub unusable : Unicode → Text → ArtifactScanStatus → Raised ScreenArtifactScan
unusable u p status =
    and_then (sequence_from_artifact_path u p) (λ n. returned (bad_scan p status none n))

unfoldable pub scan_read : Unicode → Text → ArtifactRead → Raised ScreenArtifactScan
unfolding sequence_hint sequence_from_artifact_path
scan_read u p read_error = unusable u p unreadable
scan_read u p not_json = unusable u p malformed
scan_read u p not_object = unusable u p malformed
scan_read u p (json_object screen_id sequence payload) =
    and_then (sequence_hint u p sequence) (λ n. returned (hinted p screen_id payload n))

unfoldable pub scan_screen_artifact : Unicode → ArtifactFiles → Text → Raised ScreenArtifactScan
unfolding scan_read
scan_screen_artifact u files p = scan_read u p (files.read_artifact p)

-- `candidates.setdefault(resolved, ...)`, in the dict's order: the paths with their resolved ones.
unfoldable pub add_candidate : ArtifactFiles → Text → List (Text × Text) → List (Text × Text)
add_candidate files p [] = (files.resolve p, p) ∷ []
add_candidate files p ((r, q) ∷ rest) =
    let later = add_candidate files p rest in
    if text_eq (files.resolve p) r then (r, q) ∷ rest else (r, q) ∷ later

unfoldable pub add_candidates : ArtifactFiles → List Text → List (Text × Text) → List (Text × Text)
unfolding add_candidate
add_candidates files [] acc = acc
add_candidates files (p ∷ ps) acc = add_candidates files ps (add_candidate files p acc)

abbrev pub current_artifact : Runtime → Option Text
current_artifact r = elim r.screen_state [
  | none ↦ none
  | some s ↦ elim s.artifacts [ none ↦ none | some a ↦ a.screen_json ]
]

abbrev pub start_candidates : Unicode → ArtifactFiles → Option Text → Raised (List (Text × Text))
start_candidates u files none = returned []
start_candidates u files (some p) =
    and_then (is_internal_screen_artifact_path u p)
      (λ internal. returned (if internal then (files.resolve p, p) ∷ [] else []))

abbrev pub listed : Option (List Text) → List Text
listed none = []
listed (some ps) = sort text_lt ps

unfoldable pub screen_artifact_candidates : Unicode → ArtifactFiles → Runtime → Raised (List Text)
unfolding add_candidates is_internal_screen_artifact_path
screen_artifact_candidates u files r =
    and_then (start_candidates u files (current_artifact r))
      (λ start. returned (map (λ e. e.1) (add_candidates files (listed files.glob_obs) start)))

-- The scans of the candidates that exist.
unfoldable pub scan_all : Unicode → ArtifactFiles → List Text → Raised (List ScreenArtifactScan)
unfolding scan_screen_artifact
scan_all u files [] = returned []
scan_all u files (p ∷ ps) =
    let rest = scan_all u files ps in
    if not (files.exists p)
    then rest
    else and_then (scan_screen_artifact u files p)
        (λ a. and_then rest (λ scans. returned (a ∷ scans)))

-- The loop of `lookup_source_screen_artifact` over the candidates.
unfoldable pub scan_candidates :
    Unicode → ArtifactFiles → Runtime → Raised (List ScreenArtifactScan)
unfolding screen_artifact_candidates scan_all
scan_candidates u files r = and_then (screen_artifact_candidates u files r) (scan_all u files)
