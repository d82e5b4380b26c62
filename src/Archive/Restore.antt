-- ===== src/Archive/Restore.antt =====
-- src/archive_stream.cpp: `restore_backup_archive`, from the bytes of an archive to the directories
-- in their place.
use stmanager.Prelude.{ℕ, Text, codes, is_empty, not, ◌++◌, if◌then◌else◌}
use stmanager.Status.{
  Status, Result, ok, err, looping, threw, Exec, throw, ◌>>=◌, ◌>>◌, archive_error, invalid_root,
}
use stmanager.PathSafety.Disk.{Disk}
use stmanager.PathSafety.Ensure.{ensure_directory_tree_following_existing_symlinks}
use stmanager.Server.Requests.{settle}
use stmanager.Files.Calls.{FileCalls}
use stmanager.Files.Remove.{remove_path_recursive, create_temp_directory_under}
use stmanager.Archive.Entries.{ArchiveReader, extract_archive_to_directory}
use stmanager.Archive.Targets.{file_tree, restore_from_staging_directory}

module _ {os : Disk} (fs : FileCalls os) (ar : ArchiveReader) (rounds depth entries : ℕ) where
  -- The staging directory is removed, and what that returns is not looked at.
  unfoldable pub abandon_stage : Text → Status → Exec os.State (Unit {0})
  unfolding remove_path_recursive
  abandon_stage stage_root status s = (err status, (remove_path_recursive fs depth stage_root s).1)

  abbrev pub cleaned : Result (Unit {0}) → Result (Unit {0}) → Result (Unit {0})
  cleaned (err e) (ok u) = err e
  cleaned (err e) (err f) = err e
  cleaned (ok u) r = r
  cleaned looping r = looping
  cleaned (threw what) r = threw what
  cleaned (err e) looping = looping
  cleaned (err e) (threw what) = threw what

  -- The directories are put in their place, and the staging directory is removed in any case.
  unfoldable pub install_stage : Text → Text → Exec os.State (Unit {0})
  unfolding restore_from_staging_directory remove_path_recursive
  install_stage stage_root destination_root s =
      let (r, s') =
        restore_from_staging_directory (file_tree fs rounds depth) stage_root destination_root s in
      let (c, s'') = remove_path_recursive fs depth stage_root s' in (cleaned r c, s'')

  unfoldable pub restore_staged : Text → Text → Text → Exec os.State (Unit {0})
  unfolding extract_archive_to_directory abandon_stage install_stage
  restore_staged archive destination_root stage_root s =
      let (r, s') =
        extract_archive_to_directory fs ar rounds entries stage_root (ar.open_memory archive, s) in
      settle r (abandon_stage stage_root)
        (λ _.
          if not (ar.closes s'.0)
          then abandon_stage stage_root (record {
            code = archive_error;
            message = codes "Failed to close archive reader: " ++ ar.error_string s'.0;
          })
          else install_stage stage_root destination_root)
        s'.1

  unfoldable pub restore_backup_archive : Text → Text → Exec os.State (Unit {0})
  unfolding restore_staged create_temp_directory_under
  restore_backup_archive archive destination_root =
      if is_empty destination_root
      then throw invalid_root (codes "Restore destination root cannot be empty")
      else ensure_directory_tree_following_existing_symlinks os destination_root 493
        >> (if is_empty archive
            then throw archive_error (codes "Archive stream is empty")
            else if not (ar.opens archive)
            then throw archive_error (
                codes "Failed to open archive input stream: "
                ++ ar.error_string (ar.open_memory archive))
            else create_temp_directory_under fs destination_root (codes ".stmanager-restore-stage")
              >>= λ stage_root. restore_staged archive destination_root stage_root)
