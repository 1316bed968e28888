-- ===== src/Artifacts/Tests.antt =====
-- Tests of the staged files on two concrete updates.
use androidctl.Prelude.{
  Text, text, text_eq, text_in, nat_eq, ◌++◌, if◌then◌else◌, true, false, Option, none, some, [],
  ◌∷◌, ◌≡◌, refl,
}
use androidctl.Artifacts.Files.{Fs, update, done}
use androidctl.Artifacts.Staged.{commit, rollback, rollback_all, discard, commit_all}
use androidctl.Artifacts.Single.{fresh}
use androidctl.Artifacts.Batch.{Paths, updates, staged_paths, no_faults, rollback_all-commit_all}
use androidctl.Models.Refs.{get}
use androidctl.Models.Samples.{ascii, registry}
use androidctl.Runtime.Samples.{public_screen, shown_runtime}
use androidctl.Artifacts.Payloads.{build_screen_artifact_payload, binding_payload}
use androidctl.Artifacts.Kept.{kept_signature, live_signature, artifact_keeps_signatures}
use androidctl.TextEquivalence.{Unicode}
use androidctl.Models.Errors.{value_error}
use androidctl.Artifacts.Scan.{sequence_from_artifact_path}
use androidctl.Artifacts.Lookup.{lookup_source_screen_artifact}
use androidctl.Artifacts.Verdict.{Answer, lookup-Answer}
use androidctl.Artifacts.Samples.{artifact_files}
use androidctl.Artifacts.Loss.{two_faults_lose_original}

abbrev json : Paths
json = record { staged = text "s1"; final = text "a.json"; backup = text "b1" }

abbrev xml : Paths
xml = record { staged = text "s2"; final = text "a.xml"; backup = text "b2" }

-- The first final file exists, the second does not.
abbrev files : Text → Option Text
files =
    update
      (update (update (λ _. none) (text "s1") (some (text "new"))) (text "s2") (some (text "xml")))
      (text "a.json") (some (text "old"))

-- The move of the second staged file is refused.
rollback_all-commit_all_example :
    let us = json ∷ xml ∷ [] in
    let r =
      commit_all
        (updates us)
        (record { files = files; faults = false ∷ false ∷ false ∷ false ∷ false ∷ true ∷ [] }) in
    (fs : Fs) × (rollback_all r.1 (no_faults r.2) ≡ (done, updates us, fs))
    × ((p : Text) → fs.files p ≡ (if text_in p (staged_paths us) then fs.files p else files p))
unfolding text_eq
rollback_all-commit_all_example =
    rollback_all-commit_all (json ∷ xml ∷ []) files
      (false ∷ false ∷ false ∷ false ∷ false ∷ true ∷ [])
      (refl, (refl, (refl, (refl, (refl, (refl, tt)))))) (refl, refl, (refl, refl, tt)) refl

two_faults_lose_original_example :
    let c =
      commit
        (fresh (text "s1") (text "a.json") (text "b1"))
        (record { files = files; faults = false ∷ false ∷ true ∷ true ∷ [] }) in
    let r = rollback c.1 c.2 in
    let d = discard r.1 r.2 in (d.1.files (text "a.json") ≡ none) × (d.1.files (text "b1") ≡ none)
unfolding text_eq
two_faults_lose_original_example =
    two_faults_lose_original (text "s1") (text "a.json") (text "b1") files (text "old")
      (record { sf = refl; sb = refl; fb = refl; fs = refl; bs = refl; bf = refl }) refl

lookup-Answer_example :
    Answer ascii artifact_files shown_runtime
      (text "s0")
      (lookup_source_screen_artifact ascii artifact_files shown_runtime (text "s0"))
lookup-Answer_example = lookup-Answer ascii artifact_files shown_runtime (text "s0")

artifact_keeps_signatures_example :
    kept_signature (text "n1") (
      binding_payload
        (text "n1")
        (build_screen_artifact_payload public_screen registry 3 7 (text "12:00")).repair_bindings)
    ≡ live_signature (get registry (text "n1"))
artifact_keeps_signatures_example =
    artifact_keeps_signatures public_screen registry 3 7 (text "12:00") (text "n1")
      ((refl, refl), tt)

-- A superscript two is a digit that `int` refuses, and a name of it makes the scan raise.
abbrev superscripts : Unicode
superscripts = record ascii { is_digit = λ c. nat_eq c 178 }

superscript_refused :
    sequence_from_artifact_path superscripts (text "/w/obs-" ++ 178 ∷ text ".json") ≡ value_error
unfolding sequence_from_artifact_path text_eq
superscript_refused = refl
