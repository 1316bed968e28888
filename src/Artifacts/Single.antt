-- ===== src/Artifacts/Single.antt =====
-- One staged update: what `commit` and `rollback` of artifacts/writer.py leave behind.
use androidctl.Prelude.{
  Text, text_eq, text_eq_iff, text_eq_refl, Bool, true, false, Option, none, some, is_some,
  Option-cases, List, [], ◌∷◌, ◌≡◌, refl, ◌⊎◌, inl, inr, arith, if◌then◌else◌,
}
use androidctl.Artifacts.Files.{Fs, OsError, refused, done, raised, update, mkdir, replace, unlink}
use androidctl.Artifacts.Staged.{StagedFileUpdate, Run, commit, rollback}

-- At most one call to come is refused.
abbrev pub OneFault : List Bool → Type 0
OneFault [] = Unit
OneFault (false ∷ rest) = OneFault rest
OneFault (true ∷ rest) = rest ≡ []

-- An update that `stage_screen_json_update` or `stage_screen_xml_update` has just made.
abbrev pub fresh : Text → Text → Text → StagedFileUpdate
fresh staged final backup = record {
  staged_path = staged;
  final_path = final;
  backup_path = some backup;
  original_backed_up = false;
  final_replaced = false;
}

-- The update after a commit that replaced the final file.
abbrev pub committed : Text → Text → Text → Bool → StagedFileUpdate
committed staged final backup backed_up = record {
  staged_path = staged;
  final_path = final;
  backup_path = some backup;
  original_backed_up = backed_up;
  final_replaced = true;
}

-- The files after such a commit.
abbrev pub moved : Text → Text → Text → (Text → Option Text) → Text → Option Text
moved s f b files p =
    if text_eq p f
    then files s
    else if text_eq p s
    then none
    else if text_eq p b
    then files f
    else files p

abbrev after_three : List Bool → List Bool
after_three (_ ∷ _ ∷ _ ∷ rest) = rest
after_three _ = []

-- How a commit under at most one fault ends: with the staged file in place and the original under
-- the backup's path, or with an exception and every file as it was.
abbrev pub Replaced : Text → Text → Text → (Text → Option Text) → Run StagedFileUpdate → Type 0
Replaced s f b files r =
    (fs : Fs) × (r ≡ (done, committed s f b (is_some (files f)), fs))
    × OneFault fs.faults
    × ((p : Text) → fs.files p ≡ moved s f b files p)
    × (is_some (files s) ≡ true)

abbrev pub Unchanged : Text → Text → Text → (Text → Option Text) → Run StagedFileUpdate → Type 0
Unchanged s f b files r =
    (e : OsError) × (fs : Fs) × (r ≡ (raised e, fresh s f b, fs))
    × ((p : Text) → fs.files p ≡ files p)

-- The three paths of an update differ.
pub record Apart (s f b : Text) : Type 0 where
  pub sf : text_eq s f ≡ false
  pub sb : text_eq s b ≡ false
  pub fb : text_eq f b ≡ false
  pub fs : text_eq f s ≡ false
  pub bs : text_eq b s ≡ false
  pub bf : text_eq b f ≡ false

module _ (s f b : Text) (files : Text → Option Text) (apart : Apart s f b)
    (no_backup : files b ≡ none) where
  abbrev start : List Bool → Fs
  start faults = record { files = files; faults = faults }

  put_back-same :
      (p : Text) (old : Text)
      → files f ≡ some old
      → update (update (update (update files f none) b (some old)) b none) f (some old) p ≡ files p
  put_back-same p old g = ground (arith, text_eq_iff p f, text_eq_iff p b)

  moved_old :
      (p : Text) (body old : Text)
      → files s ≡ some body
      → files f ≡ some old
      → update (update (update (update files f none) b (some old)) s none) f (some body) p
        ≡ moved s f b files p
  moved_old p body old e g = ground (arith, text_eq_iff p f, text_eq_iff p b, text_eq_iff p s)

  moved_new :
      (p : Text) (body : Text)
      → files s ≡ some body
      → files f ≡ none
      → update (update files s none) f (some body) p ≡ moved s f b files p
  moved_new p body e g = ground (arith, text_eq_iff p f, text_eq_iff p b, text_eq_iff p s)

  ok_cases :
      (body : Text) (old : Option Text)
      → files s ≡ some body
      → files f ≡ old
      → Replaced s f b files (commit (fresh s f b) (start []))
  unfolding commit mkdir replace
  ok_cases body none e g = (
    record { files = update (update files s none) f (some body); faults = [] },
    ground arith,
    tt,
    (λ p. moved_new p body e g),
    ground arith,
  )
  ok_cases body (some old) e g = (
    record {
      files = update (update (update (update files f none) b (some old)) s none) f (some body);
      faults = [];
    },
    ground arith,
    tt,
    (λ p. moved_old p body old e g),
    ground arith,
  )

  run_cases :
      (faults : List Bool) (body : Text) (old : Option Text)
      → files s ≡ some body
      → files f ≡ old
      → OneFault faults
      → Replaced s f b files (commit (fresh s f b) (start faults))
        ⊎ Unchanged s f b files (commit (fresh s f b) (start faults))
  unfolding commit mkdir replace
  run_cases (true ∷ rest) body old e g h = inr (refused, start rest, ground arith, λ p. refl)
  run_cases (false ∷ true ∷ rest) body old e g h =
      inr (refused, start rest, ground arith, λ p. refl)
  run_cases (false ∷ false ∷ true ∷ rest) body none e g h =
      inr (refused, start rest, ground arith, λ p. refl)
  run_cases (false ∷ false ∷ true ∷ []) body (some old) e g h = inr (
    refused,
    record {
      files = update (update (update (update files f none) b (some old)) b none) f (some old);
      faults = [];
    },
    ground (arith, text_eq_refl b),
    λ p. put_back-same p old g,
  )
  run_cases (false ∷ false ∷ true ∷ x ∷ rest) body (some old) e g h = absurd (ground arith)
  run_cases faults body none e g h = inl (
    record { files = update (update files s none) f (some body); faults = after_three faults },
    ground arith,
    ground arith,
    (λ p. moved_new p body e g),
    ground arith,
  )
  run_cases faults body (some old) e g h = inl (
    record {
      files = update (update (update (update files f none) b (some old)) s none) f (some body);
      faults = after_three faults;
    },
    ground arith,
    ground arith,
    (λ p. moved_old p body old e g),
    ground arith,
  )

  -- With no refused call the commit replaces the final file.
  pub commit_ok : is_some (files s) ≡ true → Replaced s f b files (commit (fresh s f b) (start []))
  commit_ok staged = elim (Option-cases (files s)) [
    | inl e ↦ absurd (ground arith)
    | inr (body, e) ↦ ok_cases body (files f) e refl
  ]

  -- A commit under at most one fault replaces the final file, or leaves every file as it was.
  pub commit_cases :
      (faults : List Bool)
      → is_some (files s) ≡ true
      → OneFault faults
      → Replaced s f b files (commit (fresh s f b) (start faults))
        ⊎ Unchanged s f b files (commit (fresh s f b) (start faults))
  commit_cases faults staged h = elim (Option-cases (files s)) [
    | inl e ↦ absurd (ground arith)
    | inr (body, e) ↦ run_cases faults body (files f) e refl h
  ]

module _ (s f b : Text) (apart : Apart s f b) where
  -- Rolling back a replaced final file with no refused call: the final file is the backup's again.
  pub rollback_lem :
      (files : Text → Option Text) (body : Text) (old : Option Text)
      → files f ≡ some body
      → files b ≡ old
      → (fs : Fs) × (rollback
            (committed s f b (is_some old))
            (record { files = files; faults = [] })
          ≡ (done, fresh s f b, fs))
        × (fs.faults ≡ [])
        × ((p : Text)
            → fs.files p ≡ (if text_eq p f then old else if text_eq p b then none else files p))
  unfolding rollback unlink replace
  rollback_lem files body none e g = (
    record { files = update files f none; faults = [] },
    ground arith,
    refl,
    λ p. ground (arith, text_eq_iff p b, text_eq_iff p f),
  )
  rollback_lem files body (some old) e g = (
    record { files = update (update (update files f none) b none) f (some old); faults = [] },
    ground arith,
    refl,
    λ p. ground (arith, text_eq_iff p b, text_eq_iff p f),
  )
