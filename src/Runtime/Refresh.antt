-- ===== src/Runtime/Refresh.antt =====
-- `commit_screen_refresh` of runtime/kernel.py takes effect as a whole or not at all.
use androidctl.Prelude.{Bool, true, false, Option, some, ◌≡◌, ◌⊎◌, arith}
use androidctl.Runtime.Models.{Runtime, World, Failure, Result, ok, err}
use androidctl.Runtime.Lifecycle.{commit_runtime, state_file_of}
use androidctl.Runtime.ScreenCommit.{
  ScreenRefreshUpdate, commit_refresh_locked, commit_screen_refresh,
}

abbrev pub is_ok : {A : Type 0} → Result A → Bool
is_ok (ok _) = true
is_ok (err _) = false

-- Whatever calls of the file system are refused and whatever `pre_commit` raises: either the
-- refresh raises, with the runtime and the persisted state as they were, or the runtime is the
-- refreshed one and the persisted state is that of the refreshed runtime.
pub refresh_all_or_nothing :
    (pre_commit : Runtime → Option Failure) (update : ScreenRefreshUpdate) (w : World)
    → let (result, w') = commit_screen_refresh pre_commit update w in
      let refreshed = commit_refresh_locked update w.runtime.latest_snapshot w.runtime in
      ((is_ok result ≡ false) × (w'.runtime ≡ w.runtime) × (w'.state_file ≡ w.state_file))
      ⊎ ((w'.runtime ≡ refreshed) × (w'.state_file ≡ some (state_file_of refreshed)))
unfolding commit_screen_refresh commit_runtime
refresh_all_or_nothing pre_commit update w = ground arith
