-- ===== src/Artifacts/Loss.antt =====
-- What a second refused call does to `StagedFileUpdate.commit` of artifacts/writer.py.
use androidctl.Prelude.{Text, text_eq_refl, true, false, Option, none, some, [], ◌∷◌, ◌≡◌, arith}
use androidctl.Artifacts.Files.{mkdir, replace, unlink}
use androidctl.Artifacts.Staged.{commit, rollback, discard}
use androidctl.Artifacts.Single.{fresh, Apart}

-- When the move of the staged file is refused and putting the original back is refused too,
-- rolling back does nothing, and discarding removes the backup: no file is left under the final path or the backup's.
pub two_faults_lose_original :
    (s f b : Text) (files : Text → Option Text) (old : Text)
    → Apart s f b
    → files f ≡ some old
    → let c =
        commit
          (fresh s f b)
          (record { files = files; faults = false ∷ false ∷ true ∷ true ∷ [] }) in
      let r = rollback c.1 c.2 in
      let d = discard r.1 r.2 in (d.1.files f ≡ none) × (d.1.files b ≡ none)
unfolding commit rollback discard mkdir replace unlink
two_faults_lose_original s f b files old apart e =
    (ground (arith, text_eq_refl b, text_eq_refl f), ground (arith, text_eq_refl b, text_eq_refl f))
