-- ===== src/Artifacts/Files.antt =====
-- The file calls that artifacts/writer.py makes: `Path.replace`, `Path.unlink` and `Path.mkdir`.
-- A call takes the next entry of `faults`: `true` is an `OSError` other than `FileNotFoundError`,
-- and leaves the files alone. Past the end of the list no call is refused. A path is its posix
-- text, and a file is its contents.
use androidctl.Prelude.{
  Text, text_eq, Bool, false, Option, none, some, List, [], ◌∷◌, if◌then◌else◌,
}

pub record Fs : Type 0 where
  pub files : Text → Option Text
  pub faults : List Bool

pub data OsError : Type 0 where
  not_found refused : OsError

-- How a call ends: it returns, or it raises.
pub data Outcome : Type 0 where
  done : Outcome
  raised : OsError → Outcome

abbrev pub update : (Text → Option Text) → Text → Option Text → Text → Option Text
update f p v q = if text_eq q p then v else f q

-- Whether the next call is refused, and the faults after it.
abbrev pub next_fault : List Bool → Bool × List Bool
next_fault [] = (false, [])
next_fault (b ∷ rest) = (b, rest)

-- `parent.mkdir(parents=True, exist_ok=True)`; directories are not kept.
unfoldable pub mkdir : Fs → Outcome × Fs
mkdir fs =
    let (refuse, rest) = next_fault fs.faults in
    (if refuse then raised refused else done, record fs { faults = rest })

unfoldable pub replace_found : Text → Text → Option Text → Fs → Outcome × Fs
replace_found src dst none fs = (raised not_found, fs)
replace_found src dst (some body) fs =
    (done, record fs { files = update (update fs.files src none) dst (some body) })

-- `src.replace(dst)`
unfoldable pub replace : Text → Text → Fs → Outcome × Fs
unfolding replace_found
replace src dst fs =
    let (refuse, rest) = next_fault fs.faults in
    if refuse
    then (raised refused, record fs { faults = rest })
    else replace_found src dst (fs.files src) (record fs { faults = rest })

unfoldable pub unlink_found : Text → Option Text → Fs → Outcome × Fs
unlink_found p none fs = (raised not_found, fs)
unlink_found p (some _) fs = (done, record fs { files = update fs.files p none })

-- `p.unlink()`
unfoldable pub unlink : Text → Fs → Outcome × Fs
unfolding unlink_found
unlink p fs =
    let (refuse, rest) = next_fault fs.faults in
    if refuse
    then (raised refused, record fs { faults = rest })
    else unlink_found p (fs.files p) (record fs { faults = rest })
