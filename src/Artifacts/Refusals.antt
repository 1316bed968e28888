-- ===== src/Artifacts/Refusals.antt =====
-- When the scan of artifacts/screen_lookup.py raises: only at a name whose digits `int` refuses.
use androidctl.Prelude.{
  Text, text, text_eq, is_some, false, not, Option, none, some, List, [], ◌∷◌, map, All, All-map,
  All-mapped, Among, all-Among, if◌then◌else◌, ◌≡◌, ◌⊎◌, inl, inr, refl, by_if,
}
use androidctl.Prelude.Int.{ℤ}
use androidctl.TextEquivalence.{Unicode}
use androidctl.Models.Errors.{Raised, returned, daemon_error, runtime_error, value_error, and_then}
use androidctl.Runtime.Models.{Runtime}
use androidctl.Artifacts.Payloads.{ScreenArtifactPayload}
use androidctl.Artifacts.Scan.{
  ArtifactFiles, ArtifactRead, ArtifactScanStatus, ScreenArtifactScan, is_valid, malformed,
  unreadable, read_error, not_json, not_object, json_object, bad_scan, hinted, unusable, isdigit,
  int_of, int_or_raise, int_of_digits, without_prefix, without_suffix, path_name,
  sequence_from_artifact_path, sequence_hint, scan_read, scan_screen_artifact, scan_all,
  is_internal_screen_artifact_path, add_candidate, add_candidates, listed, current_artifact,
  start_candidates, screen_artifact_candidates, scan_candidates,
}

-- It returns what the first holds of, or raises a ValueError, and then the second holds.
abbrev pub Ends : {A : Type 0} → (A → Type 0) → Type 0 → Raised A → Type 0
Ends Q E (returned a) = Q a
Ends Q E (daemon_error _) = ⊥
Ends Q E runtime_error = ⊥
Ends Q E value_error = E

pub and_then-Ends :
    {A B : Type 0} (Q : A → Type 0) (S : B → Type 0) (E E' : Type 0) (x : Raised A)
    (f : A → Raised B)
    → Ends Q E x
    → (E → E')
    → ((a : A) → Q a → Ends S E' (f a))
    → Ends S E' (and_then x f)
and_then-Ends Q S E E' (returned a) f h g k = k a h
and_then-Ends Q S E E' (daemon_error e) f h g k = h
and_then-Ends Q S E E' runtime_error f h g k = h
and_then-Ends Q S E E' value_error f h g k = g h

-- A scan with a payload is valid and names the payload's screen.
abbrev pub Scanned : ScreenArtifactScan → Type 0
Scanned a = elim a.payload [
  | none ↦ is_valid a.status ≡ false
  | some p ↦ a.screen_id ≡ some p.screen_id
]

-- `int` refuses the digits of the path's name.
abbrev pub Refuses : Unicode → Text → Type 0
Refuses u p = sequence_from_artifact_path u p ≡ value_error

-- A path that a lookup looks at.
abbrev pub Considered : ArtifactFiles → Runtime → Text → Type 0
Considered files r p = (current_artifact r ≡ some p) ⊎ Among (listed files.glob_obs) p

-- `int` refuses the name of a path that a lookup looks at.
abbrev pub Refused : Unicode → ArtifactFiles → Runtime → Type 0
Refused u files r = (p : Text) × Considered files r p × Refuses u p

module _ (u : Unicode) where
  int_or_raise-Ends : (o : Option ℤ) → Ends (λ _. Unit) Unit (int_or_raise o)
  int_or_raise-Ends none = tt
  int_or_raise-Ends (some n) = tt

  suffix-Ends :
      (o : Option Text)
      → Ends (λ _. Unit) Unit (elim o [ none ↦ returned none | some digits ↦ int_of u digits ])
  suffix-Ends none = tt
  suffix-Ends (some digits) =
      by_if (Ends (λ _. Unit) Unit) (not (isdigit u digits)) _ _ (λ _. tt)
        (λ _. int_or_raise-Ends (int_of_digits u digits 0))

  raised_itself :
      (x : Raised (Option ℤ)) → Ends (λ _. Unit) Unit x → Ends (λ _. Unit) (x ≡ value_error) x
  raised_itself (returned n) h = tt
  raised_itself (daemon_error e) h = h
  raised_itself runtime_error h = h
  raised_itself value_error h = refl

  sequence-Ends : (p : Text) → Ends (λ _. Unit) (Refuses u p) (sequence_from_artifact_path u p)
  sequence-Ends p = raised_itself (sequence_from_artifact_path u p) (
      unfold sequence_from_artifact_path in
      elim (without_prefix (text "obs-") (path_name p))
        as (λ o.
          Ends (λ _. Unit) Unit
            (elim o [
              | none ↦ returned none
              | some rest ↦ elim (without_suffix (text ".json") rest) [
                | none ↦ returned none
                | some digits ↦ int_of u digits
              ]
            ])) [ none ↦ tt | some rest ↦ suffix-Ends (without_suffix (text ".json") rest) ])

  hint-Ends : (p : Text) (n : Option ℤ) → Ends (λ _. Unit) (Refuses u p) (sequence_hint u p n)
  unfolding sequence_hint
  hint-Ends p none = sequence-Ends p
  hint-Ends p (some n) = tt

  hinted-Scanned :
      (p : Text) (id : Option Text) (o : Option ScreenArtifactPayload) (n : Option ℤ)
      → Scanned (hinted p id o n)
  hinted-Scanned p id none n = refl
  hinted-Scanned p id (some payload) n = refl

  unusable-Ends :
      (p : Text) (status : ArtifactScanStatus)
      → is_valid status ≡ false
      → Ends Scanned (Refuses u p) (unusable u p status)
  unusable-Ends p status bad =
      and_then-Ends (λ _. Unit) Scanned (Refuses u p) (Refuses u p)
        (sequence_from_artifact_path u p) (λ n. returned (bad_scan p status none n))
        (sequence-Ends p) (λ e. e) (λ n _. bad)

  scan_read-Ends :
      (p : Text) (read : ArtifactRead) → Ends Scanned (Refuses u p) (scan_read u p read)
  unfolding scan_read
  scan_read-Ends p read_error = unusable-Ends p unreadable refl
  scan_read-Ends p not_json = unusable-Ends p malformed refl
  scan_read-Ends p not_object = unusable-Ends p malformed refl
  scan_read-Ends p (json_object id sequence payload) =
      and_then-Ends (λ _. Unit) Scanned (Refuses u p) (Refuses u p) (sequence_hint u p sequence)
        (λ n. returned (hinted p id payload n)) (hint-Ends p sequence) (λ e. e)
        (λ n _. hinted-Scanned p id payload n)

  module _ (files : ArtifactFiles) (P : Text → Type 0) where
    scan_all-Ends :
        (ps : List Text)
        → All P ps
        → Ends (All Scanned) ((p : Text) × P p × Refuses u p) (scan_all u files ps)
    unfolding scan_all scan_screen_artifact
    scan_all-Ends [] h = tt
    scan_all-Ends (p ∷ ps) h =
        let rest = scan_all-Ends ps h.1 in
        by_if (Ends (All Scanned) ((p : Text) × P p × Refuses u p)) (not (files.exists p)) _ _
          (λ _. rest)
          (λ _.
            and_then-Ends Scanned (All Scanned) (Refuses u p) ((p : Text) × P p × Refuses u p)
              (scan_screen_artifact u files p)
              (λ a. and_then (scan_all u files ps) (λ scans. returned (a ∷ scans)))
              (scan_read-Ends p (files.read_artifact p)) (λ e. (p, h.0, e))
              (λ a k.
                and_then-Ends (All Scanned) (All Scanned) ((p : Text) × P p × Refuses u p)
                  ((p : Text) × P p × Refuses u p) (scan_all u files ps)
                  (λ scans. returned (a ∷ scans)) rest (λ e. e) (λ scans all. (k, all))))

    add_candidate-All :
        (p : Text) (cs : List (Text × Text))
        → P p
        → All (λ c. P c.1) cs
        → All (λ c. P c.1) (add_candidate files p cs)
    unfolding add_candidate
    add_candidate-All p [] h k = (h, tt)
    add_candidate-All p (c ∷ rest) h k =
        by_if (λ (xs : List (Text × Text)). All (λ x. P x.1) xs) (text_eq (files.resolve p) c.0)
          (c ∷ rest) (c ∷ add_candidate files p rest) (λ _. k)
          (λ _. (k.0, add_candidate-All p rest h k.1))

    add_candidates-All :
        (ps : List Text) (cs : List (Text × Text))
        → All P ps
        → All (λ c. P c.1) cs
        → All (λ c. P c.1) (add_candidates files ps cs)
    unfolding add_candidates
    add_candidates-All [] cs h k = k
    add_candidates-All (p ∷ ps) cs h k =
        add_candidates-All ps (add_candidate files p cs) h.1 (add_candidate-All p cs h.0 k)

  module _ (files : ArtifactFiles) (r : Runtime) where
    start-Ends :
        (o : Option Text)
        → current_artifact r ≡ o
        → Ends (All (λ c. Considered files r c.1)) (Refused u files r) (start_candidates u files o)
    unfolding is_internal_screen_artifact_path
    start-Ends none e = tt
    start-Ends (some p) e =
        and_then-Ends (λ _. Unit) (All (λ c. Considered files r c.1)) (Refuses u p)
          (Refused u files r) (is_internal_screen_artifact_path u p)
          (λ internal. returned (if internal then (files.resolve p, p) ∷ [] else []))
          (and_then-Ends (λ _. Unit) (λ _. Unit) (Refuses u p) (Refuses u p)
            (sequence_from_artifact_path u p) (λ n. returned (is_some n)) (sequence-Ends p) (λ x. x)
            (λ n _. tt))
          (λ x. (p, inl e, x))
          (λ internal _.
            by_if (All (λ c. Considered files r c.1)) internal _ _ (λ _. (inl e, tt)) (λ _. tt))

    candidates-Ends :
        Ends (All (Considered files r)) (Refused u files r) (screen_artifact_candidates u files r)
    unfolding screen_artifact_candidates
    candidates-Ends =
        and_then-Ends (All (λ c. Considered files r c.1)) (All (Considered files r))
          (Refused u files r) (Refused u files r) (start_candidates u files (current_artifact r))
          (λ start. returned (map (λ e. e.1) (add_candidates files (listed files.glob_obs) start)))
          (start-Ends (current_artifact r) refl) (λ e. e)
          (λ start h.
            All-mapped (λ c. Considered files r c.1) (Considered files r) (λ c. c.1)
              (add_candidates files (listed files.glob_obs) start) (λ c k. k)
              (add_candidates-All files (Considered files r) (listed files.glob_obs) start
                (All-map (Among (listed files.glob_obs)) (Considered files r)
                  (listed files.glob_obs) (λ p k. inr k) (all-Among (listed files.glob_obs)))
                h))

    -- A lookup's scans are those of artifacts, and it raises only at a refused name.
    pub scan_candidates-Ends : Ends (All Scanned) (Refused u files r) (scan_candidates u files r)
    unfolding scan_candidates
    scan_candidates-Ends =
        and_then-Ends (All (Considered files r)) (All Scanned) (Refused u files r)
          (Refused u files r) (screen_artifact_candidates u files r) (scan_all u files)
          candidates-Ends (λ e. e) (λ ps h. scan_all-Ends files (Considered files r) ps h)
