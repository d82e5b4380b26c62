-- ===== src/Files/Move.antt =====
-- src/fs_ops.cpp: `move_or_copy_path`.
use stmanager.Prelude.{ℕ, Text, codes, not, ◌==◌, Option, none, some, ◌++◌, if◌then◌else◌}
use stmanager.Status.{Status, Result, ok, fail, Exec, throw, ◌>>◌, io_error}
use stmanager.PathSafety.Disk.{Disk}
use stmanager.PathSafety.Ensure.{ensure_parent_directories}
use stmanager.Server.Requests.{settle}
use stmanager.Files.Calls.{FileCalls, exdev, make_io_error, path_exists}
use stmanager.Files.Copy.{copy_path_recursive}
use stmanager.Files.Remove.{remove_path_recursive}

module _ {os : Disk} (fs : FileCalls os) (rounds depth : ℕ) where
  -- The source could not be removed: what was copied is removed, whatever that returns.
  unfoldable pub undo_copy : Text → Status → Exec os.State (Unit {0})
  unfolding remove_path_recursive
  undo_copy destination_path remove_status s = (
    fail io_error (codes "Cross-device move cleanup failed: " ++ remove_status.message),
    (remove_path_recursive fs depth destination_path s).1,
  )

  -- A move to another device.
  unfoldable pub copy_and_remove : Text → Text → Exec os.State (Unit {0})
  unfolding copy_path_recursive remove_path_recursive undo_copy
  copy_and_remove source_path destination_path =
      copy_path_recursive fs rounds depth source_path destination_path >> λ s.
      let (r, s') = remove_path_recursive fs depth source_path s in
      settle r (undo_copy destination_path) (λ _ u. (ok tt, u)) s'

  abbrev pub renamed : Text → Text → Option ℕ × os.State → Result (Unit {0}) × os.State
  renamed source_path destination_path (none, s) = (ok tt, s)
  renamed source_path destination_path (some errno, s) =
      if not (errno == exdev)
      then (
        make_io_error os (codes "rename") (source_path ++ (codes " -> " ++ destination_path)) errno,
        s,
      )
      else copy_and_remove source_path destination_path s

  unfoldable pub move_or_copy_path : Text → Text → Exec os.State (Unit {0})
  unfolding copy_and_remove
  move_or_copy_path source_path destination_path s =
      if not (path_exists os source_path s)
      then throw io_error (codes "Source path does not exist: " ++ source_path) s
      else if path_exists os destination_path s
      then throw io_error (codes "Destination path already exists: " ++ destination_path) s
      else (ensure_parent_directories os destination_path 493 >> (λ u.
            renamed source_path destination_path (fs.rename source_path destination_path u)))
          s
