-- ===== src/Artifacts/Staged.antt =====
-- `StagedFileUpdate` and `StagedArtifactWrite` of artifacts/writer.py. A method that sets a flag of
-- the update returns the new record with its outcome, since an exception keeps the flags set so far.
use androidctl.Prelude.{
  Text, Bool, true, false, Option, none, some, List, [], ◌∷◌, if◌then◌else◌, not,
}
use androidctl.Artifacts.Files.{
  Fs, OsError, not_found, refused, Outcome, done, raised, mkdir, replace, unlink,
}

pub record StagedFileUpdate : Type 0 where
  pub staged_path : Text
  pub final_path : Text
  pub backup_path : Option Text
  pub original_backed_up : Bool
  pub final_replaced : Bool

abbrev pub Run : Type 0 → Type 0
Run A = Outcome × A × Fs

-- `self.final_path.replace(self.backup_path)` with its handler
back_up : StagedFileUpdate → Fs → Run StagedFileUpdate
back_up u fs = elim u.backup_path [
  | none ↦ (done, u, fs)
  | some backup ↦
      let (r, fs') = replace u.final_path backup fs in
      elim r [
        | done ↦ (done, record u { original_backed_up = true }, fs')
        | raised not_found ↦ (done, u, fs')
        | raised refused ↦ (raised refused, u, fs')
      ]
]

-- the `except` of the second `replace`: put the original back, then raise again
put_back : OsError → StagedFileUpdate → Fs → Run StagedFileUpdate
put_back e u fs =
    if u.original_backed_up
    then elim u.backup_path [
      | none ↦ (raised e, u, fs)
      | some backup ↦
          let (r, fs') = replace backup u.final_path fs in
          elim r [
            | done ↦ (raised e, record u { original_backed_up = false }, fs')
            | raised e' ↦ (raised e', u, fs')
          ]
    ]
    else (raised e, u, fs)

move_in : StagedFileUpdate → Fs → Run StagedFileUpdate
unfolding put_back
move_in u fs =
    let (r, fs') = replace u.staged_path u.final_path fs in
    elim r [ done ↦ (done, record u { final_replaced = true }, fs') | raised e ↦ put_back e u fs' ]

-- `StagedFileUpdate.commit`
unfoldable pub commit : StagedFileUpdate → Fs → Run StagedFileUpdate
unfolding back_up move_in
commit u fs =
    let (r, fs₁) = mkdir fs in
    elim r [
      | raised e ↦ (raised e, u, fs₁)
      | done ↦
          let (r', u', fs₂) = back_up u fs₁ in
          elim r' [ done ↦ move_in u' fs₂ | raised e ↦ (raised e, u', fs₂) ]
    ]

-- `with suppress(FileNotFoundError): path.unlink()`
abbrev unlink_quietly : Text → Fs → Outcome × Fs
unlink_quietly p fs =
    let (r, fs') = unlink p fs in
    (elim r [ done ↦ done | raised not_found ↦ done | raised refused ↦ raised refused ], fs')

restore : StagedFileUpdate → Fs → Run StagedFileUpdate
restore u fs = elim u.backup_path [
  | none ↦ (done, record u { final_replaced = false }, fs)
  | some backup ↦
      let (r, fs') = replace backup u.final_path fs in
      elim r [
        | done ↦ (done, record u { original_backed_up = false; final_replaced = false }, fs')
        | raised e ↦ (raised e, u, fs')
      ]
]

-- `StagedFileUpdate.rollback`; both branches that go on begin by unlinking the final file
unfoldable pub rollback : StagedFileUpdate → Fs → Run StagedFileUpdate
unfolding restore
rollback u fs =
    if not u.final_replaced
    then (done, u, fs)
    else let (r, fs') = unlink_quietly u.final_path fs in
      elim r [
        | raised e ↦ (raised e, u, fs')
        | done ↦
            if u.original_backed_up
            then restore u fs'
            else (done, record u { final_replaced = false }, fs')
      ]

-- `StagedFileUpdate.discard`
unfoldable pub discard : StagedFileUpdate → Fs → Outcome × Fs
discard u fs =
    let (r, fs') = unlink_quietly u.staged_path fs in
    elim r [
      | raised e ↦ (raised e, fs')
      | done ↦ elim u.backup_path [ none ↦ (done, fs') | some b ↦ unlink_quietly b fs' ]
    ]

-- `StagedArtifactWrite`: the loops over `file_updates`, which an exception leaves.
unfoldable pub commit_all : List StagedFileUpdate → Fs → Run (List StagedFileUpdate)
commit_all [] fs = (done, [], fs)
commit_all (u ∷ us) fs =
    let (r, u', fs') = commit u fs in
    elim r [
      | raised e ↦ (raised e, u' ∷ us, fs')
      | done ↦ let (r', us', fs'') = commit_all us fs' in (r', u' ∷ us', fs'')
    ]

-- `for update in reversed(self.file_updates)`: the later updates first
unfoldable pub rollback_all : List StagedFileUpdate → Fs → Run (List StagedFileUpdate)
rollback_all [] fs = (done, [], fs)
rollback_all (u ∷ us) fs =
    let (r, us', fs') = rollback_all us fs in
    elim r [
      | raised e ↦ (raised e, u ∷ us', fs')
      | done ↦ let (r', u', fs'') = rollback u fs' in (r', u' ∷ us', fs'')
    ]

unfoldable pub discard_all : List StagedFileUpdate → Fs → Outcome × Fs
discard_all [] fs = (done, fs)
discard_all (u ∷ us) fs =
    let (r, fs') = discard u fs in elim r [ raised e ↦ (raised e, fs') | done ↦ discard_all us fs' ]
