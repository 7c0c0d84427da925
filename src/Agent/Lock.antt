-- ===== src/Agent/Lock.antt =====
-- internal/fileutil/lock.go: a lock that is a file of the disk.
pub mod Exclusion
pub mod Held
use certplane.Base.{Bool, true, false, not, Option, none, some, Result, ok, err, if◌then◌else◌}
use certplane.Base.Text.{Text}
use certplane.Base.Dict.{lookup, insert, delete}
use certplane.Agent.{
  Disk, AgentError, is_there, creating_lock_directory, lock_exists, creating_lock, closing_lock,
  remove_failed,
}

-- `Lock`
pub record Lock : Type 0 where
  pub path : Text

-- `AcquireLock`: the file is created only if it is not there, with the text of the process in it.
unfoldable pub acquire_lock : Text → Text → Disk → Result AgentError Lock × Disk
acquire_lock path pid d =
    if d.mkdir_fails path
    then (err creating_lock_directory, d)
    else if is_there (lookup path d.files)
    then (err lock_exists, d)
    else if d.create_fails path
    then (err creating_lock, d)
    else (ok (record { path = path }), record d { files = insert path pid d.files })

-- How `os.Remove` ends.
pub data Removal : Type 0 where
  removed not_there not_removed : Removal

-- `os.Remove`
unfoldable pub remove_file : Text → Disk → Removal × Disk
remove_file path d =
    if not (is_there (lookup path d.files))
    then (not_there, d)
    else if d.remove_fails path
    then (not_removed, d)
    else (removed, record d { files = delete path d.files })

-- The error of the close comes first, and a file that is gone is no error.
release_error : Bool → Removal → Option AgentError
release_error true r = some closing_lock
release_error false removed = none
release_error false not_there = none
release_error false not_removed = some remove_failed

-- `Release`
unfoldable pub release_lock : Lock → Disk → Option AgentError × Disk
unfolding remove_file release_error
release_lock lock d =
    let (r, d') = remove_file lock.path d in (release_error (d.close_fails lock.path) r, d')

behind_lock :
    (Disk → Option AgentError × Disk) → Result AgentError Lock × Disk → Option AgentError × Disk
behind_lock body (err e, d) = (some e, d)
behind_lock body (ok lock, d) = let (e, d') = body d in (e, (release_lock lock d').1)

-- The lock is taken, and released on every way out: `defer lock.Release()`, whose error is dropped.
unfoldable pub under_lock :
    Text → Text → (Disk → Option AgentError × Disk) → Disk → Option AgentError × Disk
unfolding behind_lock
under_lock path pid body d = behind_lock body (acquire_lock path pid d)
