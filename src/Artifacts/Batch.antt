-- ===== src/Artifacts/Batch.antt =====
-- The staged files of one screen together: `StagedArtifactWrite` of artifacts/writer.py.
use androidctl.Prelude.{
  Text, text_eq, text_eq_iff, text_eq_refl, text_in, Distinct, Bool, true, false, Option, none,
  some, is_some, Option-cases, List, [], ◌∷◌, ◌≡◌, refl, ◌∙◌, inl, inr, arith, if◌then◌else◌,
}
use androidctl.Artifacts.Files.{Fs, OsError, done, raised}
use androidctl.Artifacts.Staged.{StagedFileUpdate, Run, commit, rollback, commit_all, rollback_all}
use androidctl.Artifacts.Single.{
  OneFault, fresh, committed, moved, Apart, commit_cases, rollback_lem,
}

pub record Paths : Type 0 where
  pub staged : Text
  pub final : Text
  pub backup : Text

-- The updates that `stage_screen` makes.
abbrev pub updates : List Paths → List StagedFileUpdate
updates [] = []
updates (u ∷ us) = fresh u.staged u.final u.backup ∷ updates us

abbrev pub all_paths : List Paths → List Text
all_paths [] = []
all_paths (u ∷ us) = u.staged ∷ u.final ∷ u.backup ∷ all_paths us

abbrev pub staged_paths : List Paths → List Text
staged_paths [] = []
staged_paths (u ∷ us) = u.staged ∷ staged_paths us

-- The staged files are written, and no file stands under a backup's path.
abbrev pub Ready : (Text → Option Text) → List Paths → Type 0
Ready files [] = Unit
Ready files (u ∷ us) = (is_some (files u.staged) ≡ true) × (files u.backup ≡ none) × Ready files us

Distinct-Apart :
    (u : Paths) (us : List Paths) → Distinct (all_paths (u ∷ us)) → Apart u.staged u.final u.backup
Distinct-Apart u us d = ground (
  arith,
  text_eq_iff u.staged u.final,
  text_eq_iff u.final u.staged,
  text_eq_iff u.staged u.backup,
  text_eq_iff u.backup u.staged,
  text_eq_iff u.final u.backup,
  text_eq_iff u.backup u.final,
)

moved-Ready :
    (u : Paths) (us : List Paths) (files files' : Text → Option Text)
    → text_in u.staged (all_paths us) ≡ false
    → text_in u.final (all_paths us) ≡ false
    → text_in u.backup (all_paths us) ≡ false
    → ((p : Text) → files' p ≡ moved u.staged u.final u.backup files p)
    → Ready files us
    → Ready files' us
moved-Ready u [] files files' hs hf hb m r = tt
moved-Ready u (v ∷ us) files files' hs hf hb m r = ground (
  arith,
  m v.staged,
  m v.backup,
  text_eq_iff v.staged u.staged,
  text_eq_iff u.staged v.staged,
  text_eq_iff v.staged u.final,
  text_eq_iff u.final v.staged,
  text_eq_iff v.staged u.backup,
  text_eq_iff u.backup v.staged,
  text_eq_iff v.backup u.staged,
  text_eq_iff u.staged v.backup,
  text_eq_iff v.backup u.final,
  text_eq_iff u.final v.backup,
  text_eq_iff v.backup u.backup,
  text_eq_iff u.backup v.backup,
  moved-Ready u us files files',
)

not_staged :
    (p : Text) (us : List Paths)
    → text_in p (all_paths us) ≡ false
    → text_in p (staged_paths us) ≡ false
not_staged p [] h = refl
not_staged p (u ∷ us) h = ground (arith, not_staged p us)

-- Nothing to roll back: no call is made.
rollback_all-updates :
    (us : List Paths) (fs : Fs) → rollback_all (updates us) fs ≡ (done, updates us, fs)
unfolding rollback_all rollback
rollback_all-updates [] fs = refl
rollback_all-updates (u ∷ us) fs = ground (arith, rollback_all-updates us fs)

abbrev pub no_faults : Fs → Fs
no_faults fs = record { files = fs.files; faults = [] }

-- Rolling `r` back with no refused call makes the updates new again, and every file but the staged
-- ones is as it was in `files`.
abbrev Restored : List Paths → (Text → Option Text) → Run (List StagedFileUpdate) → Type 0
Restored us files r =
    (fs : Fs) × (rollback_all r.1 (no_faults r.2) ≡ (done, updates us, fs))
    × (fs.faults ≡ [])
    × ((p : Text) → text_in p (staged_paths us) ≡ false → fs.files p ≡ files p)

commit_all-raised :
    (u u' : StagedFileUpdate) (us : List StagedFileUpdate) (fs fs' : Fs) (e : OsError)
    → commit u fs ≡ (raised e, u', fs')
    → commit_all (u ∷ us) fs ≡ (raised e, u' ∷ us, fs')
unfolding commit_all
commit_all-raised u u' us fs fs' e run = ground arith

commit_all-done :
    (u u' : StagedFileUpdate) (us : List StagedFileUpdate) (fs fs' : Fs)
    → commit u fs ≡ (done, u', fs')
    → commit_all (u ∷ us) fs
      ≡ ((commit_all us fs').0, u' ∷ (commit_all us fs').1, (commit_all us fs').2)
unfolding commit_all
commit_all-done u u' us fs fs' run = ground arith

rollback_all-step :
    (u : Paths) (us : List Paths) (files : Text → Option Text) (old : Option Text)
    (us' : List StagedFileUpdate) (fs' fs : Fs) (body : Text)
    → Apart u.staged u.final u.backup
    → rollback_all us' (no_faults fs') ≡ (done, updates us, fs)
    → fs.faults ≡ []
    → fs.files u.final ≡ some body
    → fs.files u.backup ≡ old
    → (fs₂ : Fs) × (rollback_all
          (committed u.staged u.final u.backup (is_some old) ∷ us')
          (no_faults fs')
        ≡ (done, updates (u ∷ us), fs₂))
      × (fs₂.faults ≡ [])
      × ((p : Text)
          → fs₂.files p
            ≡ (if text_eq p u.final then old else if text_eq p u.backup then none else fs.files p))
unfolding rollback_all
rollback_all-step u us files old us' fs' fs body apart back calm fin bak =
    let (fs₂, run, calm₂, same) =
      rollback_lem u.staged u.final u.backup apart fs.files body old fin bak in
    (fs₂, ground (arith, back, run), calm₂, same)

finals_apart :
    (u : Paths) (us : List Paths)
    → Distinct (all_paths (u ∷ us))
    → (text_in u.final (all_paths us) ≡ false)
      × (text_in u.backup (all_paths us) ≡ false)
      × (text_in u.staged (all_paths us) ≡ false)
finals_apart u us d = ground arith

module _ (u : Paths) (us : List Paths) (files files₁ files₂ : Text → Option Text)
    (distinct : Distinct (all_paths (u ∷ us))) (no_backup : files u.backup ≡ none)
    (move : (p : Text) → files₁ p ≡ moved u.staged u.final u.backup files p)
    (same : (p : Text) → text_in p (staged_paths us) ≡ false → files₂ p ≡ files₁ p) where
  final_kept : files₂ u.final ≡ files u.staged
  final_kept = ground (
    arith,
    same u.final (not_staged u.final us (finals_apart u us distinct).0),
    move u.final,
    text_eq_refl u.final,
  )

  backup_kept : files₂ u.backup ≡ files u.final
  backup_kept = ground (
    arith,
    same u.backup (not_staged u.backup us (finals_apart u us distinct).1),
    move u.backup,
    text_eq_refl u.backup,
    Distinct-Apart u us distinct,
  )

  rest_kept :
      (files₃ : Text → Option Text) (p : Text)
      → (files₃ p ≡ (
          if text_eq p u.final
          then files u.final
          else if text_eq p u.backup
          then none
          else files₂ p))
      → text_in p (staged_paths (u ∷ us)) ≡ false
      → files₃ p ≡ files p
  rest_kept files₃ p final h =
      ground (
        arith,
        same p,
        move p,
        text_eq_iff p u.staged,
        text_eq_iff p u.final,
        text_eq_iff p u.backup,
      )

-- One more update before a batch that can be restored.
restore_before :
    (u : Paths) (us : List Paths) (files : Text → Option Text) (fs₁ : Fs)
    → Distinct (all_paths (u ∷ us))
    → files u.backup ≡ none
    → is_some (files u.staged) ≡ true
    → ((p : Text) → fs₁.files p ≡ moved u.staged u.final u.backup files p)
    → (r : Run (List StagedFileUpdate)) → Restored us fs₁.files r
    → Restored
        (u ∷ us)
        files
        (r.0, committed u.staged u.final u.backup (is_some (files u.final)) ∷ r.1, r.2)
restore_before u us files fs₁ d no_backup staged move r (fs, back, calm, same) =
    elim (Option-cases (files u.staged)) [
      | inl e ↦ absurd (ground arith)
      | inr (body, e) ↦
          let (fs₂, run, calm₂, final) =
            rollback_all-step u us files (files u.final) r.1 r.2 fs body (Distinct-Apart u us d)
              back calm (final_kept u us files fs₁.files fs.files d no_backup move same ∙ e)
              (backup_kept u us files fs₁.files fs.files d no_backup move same) in
          (
            fs₂,
            run,
            calm₂,
            λ p h.
                rest_kept u us files fs₁.files fs.files d no_backup move same fs₂.files p (final p)
                  h,
          )
    ]

batch-Restored :
    (us : List Paths) (files : Text → Option Text) (faults : List Bool)
    → Distinct (all_paths us)
    → Ready files us
    → OneFault faults
    → Restored us files (commit_all (updates us) (record { files = files; faults = faults }))
unfolding commit_all
batch-Restored [] files faults d ready one =
    (record { files = files; faults = [] }, rollback_all-updates [] _, refl, λ p _. refl)
batch-Restored (u ∷ us) files faults d ready one =
    elim (commit_cases u.staged u.final u.backup files (Distinct-Apart u us d) ready.1 faults
      ready.0 one) [
        | inl (fs₁, run, one₁, move, _) ↦ rw (commit_all-done _ _ (updates us) _ fs₁ run) (
            restore_before u us files fs₁ d ready.1 ready.0 move (commit_all (updates us) fs₁) (
              batch-Restored us fs₁.files fs₁.faults d.1.1.1
                (moved-Ready u us files fs₁.files (finals_apart u us d).2 (finals_apart u us d).0
                  (finals_apart u us d).1 move ready.2)
                one₁))
        | inr (e, fs, run, same) ↦
            rw (commit_all-raised _ _ (updates us) _ fs e run)
              (no_faults fs, rollback_all-updates (u ∷ us) (no_faults fs), refl, λ p _. same p)
      ]

-- Whatever call of the commit is refused, if at most one is, the paths being distinct, the staged files
-- written and no file under a backup's path: rolling the batch back afterwards, with no call refused,
-- returns, the updates are new again, and every file but the staged ones is as it was before the
-- commit.
pub rollback_all-commit_all :
    (us : List Paths) (files : Text → Option Text) (faults : List Bool)
    → Distinct (all_paths us)
    → Ready files us
    → OneFault faults
    → let r = commit_all (updates us) (record { files = files; faults = faults }) in
      (fs : Fs) × (rollback_all r.1 (no_faults r.2) ≡ (done, updates us, fs))
      × ((p : Text) → fs.files p ≡ (if text_in p (staged_paths us) then fs.files p else files p))
rollback_all-commit_all us files faults distinct ready one =
    let (fs, run, _, same) = batch-Restored us files faults distinct ready one in
    (fs, run, λ p. ground (arith, same p))
