-- ===== src/Archive/Cleared.antt =====
-- That a backup leaves no temporary file.
use stmanager.Prelude.{Text, Bool, true, not, ◌≡◌, refl}
use stmanager.Status.{Result, ok}
use stmanager.PathSafety.Disk.{Disk}
use stmanager.Client.Branches.{returns_status, settle-holds, ok-holds, done_choice-holds}
use stmanager.Files.Calls.{FileCalls}
use stmanager.Archive.Temp.{create_temp_archive_file_path}
use stmanager.Archive.Write.{ArchiveWriter}
use stmanager.Archive.Backup.{
  BackupSetup, write_contents, finish_backup, write_to_temp, preferred_temp_directory,
  write_backup_archive,
}

module _ {os : Disk} (fs : FileCalls os) (aw : ArchiveWriter os) (setup : BackupSetup fs)
    (data_path extensions_path : Text) (git_mode : Bool) where
  -- The last call was the one that removes the file.
  abbrev pub Unlinked : Text → os.State → Type 0
  Unlinked path s = (before : os.State) × (s ≡ (fs.unlink path before).1)

  module _ (temp_path : Text) where
    abbrev Cleared : Result Text × (aw.Writer × os.State) → Type 0
    Cleared x = returns_status x.0 ≡ true → Unlinked temp_path x.1.1

    finish_backup-Cleared :
        (x : aw.Writer × os.State) → Cleared (finish_backup fs aw setup temp_path x)
    unfolding finish_backup
    finish_backup-Cleared x =
        done_choice-holds Cleared (not (aw.close_writer x).0) _ _ (λ e k. (_, refl))
          (λ e k. (_, refl))

    write_to_temp-Cleared :
        (x : aw.Writer × os.State)
        → Cleared (write_to_temp fs aw setup data_path extensions_path git_mode temp_path x)
    unfolding write_to_temp
    write_to_temp-Cleared x =
        done_choice-holds Cleared (not (aw.open_filename temp_path x).0) _ _ (λ e k. (_, refl))
          (λ e.
            let y = (aw.open_filename temp_path x).1 in
            let z = write_contents fs aw setup data_path extensions_path git_mode y in
            settle-holds Cleared z.0 _ _ z.1 (λ k. cc) (λ w k. cc) (λ f g k. (_, refl))
              (λ a g. finish_backup-Cleared z.1))

  -- A backup that has set up its writer and made its temporary file, and that returns a status,
  -- ok or not, has removed that file as the last thing it did to the disk.
  pub write_backup_archive-Unlinked :
      (temp_path : Text) (s : os.State)
      → (create_temp_archive_file_path fs setup.number_text setup.env
          (preferred_temp_directory fs aw setup data_path)
          s).0
        ≡ ok temp_path
      → (aw.set_options aw.new_writer).0 ≡ true
      → (aw.add_zstd (aw.set_options aw.new_writer).1).0 ≡ true
      → returns_status (write_backup_archive fs aw setup data_path extensions_path git_mode s).0
        ≡ true
      → Unlinked temp_path (write_backup_archive fs aw setup data_path extensions_path git_mode s).1
  unfolding write_backup_archive
  write_backup_archive-Unlinked temp_path s made configured filtered =
      let Q : Result Text × os.State → Type 0 =
        λ x. returns_status x.0 ≡ true → Unlinked temp_path x.1 in
      done_choice-holds Q (not (aw.set_options aw.new_writer).0) _ _ (λ e k. cc)
        (λ e.
          done_choice-holds Q (not (aw.add_zstd (aw.set_options aw.new_writer).1).0) _ _ (λ f k. cc)
            (λ f.
              let c =
                create_temp_archive_file_path fs setup.number_text setup.env
                  (preferred_temp_directory fs aw setup data_path) s in
              ok-holds Q c.0 _ c.1 made (
                write_to_temp-Cleared temp_path
                  ((aw.add_zstd (aw.set_options aw.new_writer).1).1, c.1))))
