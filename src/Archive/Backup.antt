-- ===== src/Archive/Backup.antt =====
-- src/archive_stream.cpp: `write_backup_archive` and `validate_backup_archive`.
use stmanager.Prelude.{
  ℕ, zero, suc, Text, Bool, codes, is_empty, not, map, Option, List, [], ◌++◌, if◌then◌else◌,
}
use stmanager.Status.{
  Result, ok, err, threw, looping, fail, Exec, pure, lift, ◌>>=◌, ◌>>◌, io_error, archive_error,
}
use stmanager.Json.{JsonLibrary}
use stmanager.PathSafety.Disk.{Disk}
use stmanager.PathSafety.Paths.{join_path}
use stmanager.Server.Requests.{settle}
use stmanager.Files.Calls.{FileCalls}
use stmanager.GitManifest.Extensions.{
  GitExtensionInfo, collect_git_extension_info, build_git_manifest_json,
}
use stmanager.Archive.Entries.{entry, end_of_archive, no_header, ArchiveReader}
use stmanager.Archive.Temp.{
  TempNames, parent_path, create_temp_archive_file_path, copy_file_to_output_stream,
}
use stmanager.Archive.Write.{
  ArchiveWriter, write_file_or_directory, write_directory_recursive, write_manifest_file,
}

-- What a backup is given: the JSON library, whether the output stream is good once it was given
-- these bytes, the lines of a file, the environment, how numbers are printed, the time, and the fuel
-- of the loops and recursions.
pub record BackupSetup {os : Disk} (fs : FileCalls os) : Type 0 where
  pub lib : JsonLibrary
  pub takes : Text → Bool
  pub read_lines : os.State → Text → Option (List Text)
  pub env : TempNames
  pub number_text : ℕ → Text
  pub now : ℕ
  pub rounds : ℕ
  pub depth : ℕ

module _ {os : Disk} (fs : FileCalls os) (aw : ArchiveWriter os) (setup : BackupSetup fs) where
  abbrev pub unlinked : Text → aw.Writer × os.State → aw.Writer × os.State
  unlinked path s = (s.0, (fs.unlink path s.1).1)

  abbrev found_extensions : Bool → Text → aw.Writer × os.State → Result (List GitExtensionInfo)
  found_extensions git_mode extensions_path s =
      if git_mode then collect_git_extension_info fs setup.read_lines extensions_path s.1 else ok []

  -- The entries of the archive.
  unfoldable pub write_contents : Text → Text → Bool → Exec (aw.Writer × os.State) (Unit {0})
  unfolding write_file_or_directory write_directory_recursive write_manifest_file
      collect_git_extension_info build_git_manifest_json
  write_contents data_path extensions_path git_mode s =
      (lift (found_extensions git_mode extensions_path s) >>= λ extensions.
      write_file_or_directory fs aw setup.rounds setup.depth data_path (codes "data")
      >> (write_directory_recursive fs aw (write_file_or_directory fs aw setup.rounds setup.depth)
            (map (λ (x : GitExtensionInfo). x.extension_name) extensions) extensions_path
            (codes "extensions")
          >> (if git_mode
              then (lift (build_git_manifest_json setup.lib extensions) >>= λ text.
                  write_manifest_file fs aw setup.rounds text setup.now)
              else pure tt)))
        s

  -- The last check of the stream.
  abbrev still_good : Result Text → Result Text
  still_good (ok sent) =
      if setup.takes sent then ok sent else fail io_error (codes "Output stream write failed")
  still_good (err e) = err e
  still_good (threw what) = threw what
  still_good looping = looping

  -- After the entries: the archive is closed, and copied to the stream.
  unfoldable pub finish_backup : Text → Exec (aw.Writer × os.State) Text
  unfolding copy_file_to_output_stream
  finish_backup temp_path x =
      let (done, y) = aw.close_writer x in
      if not done
      then (
        fail archive_error (codes "Failed to close archive writer: " ++ aw.error_string y.0),
        unlinked temp_path y,
      )
      else (let (r, s) =
            copy_file_to_output_stream fs setup.number_text setup.takes setup.rounds temp_path
              y.1 in
          (still_good r, unlinked temp_path (y.0, s)))

  unfoldable pub write_to_temp : Text → Text → Bool → Text → Exec (aw.Writer × os.State) Text
  unfolding write_contents finish_backup
  write_to_temp data_path extensions_path git_mode temp_path x =
      let (opens, y) = aw.open_filename temp_path x in
      if not opens
      then (
        fail archive_error (codes "Failed to open archive stream: " ++ aw.error_string y.0),
        unlinked temp_path y,
      )
      else (let (r, z) = write_contents data_path extensions_path git_mode y in
          settle r (λ e u. (err e, unlinked temp_path (aw.close_writer u).1))
            (λ _. finish_backup temp_path) z)

  abbrev pub preferred_temp_directory : Text → Text
  preferred_temp_directory data_path =
      if is_empty (parent_path data_path)
      then []
      else join_path (join_path (parent_path data_path) (codes ".stmanager")) (codes "tmp")

  unfoldable pub write_backup_archive : Text → Text → Bool → Exec os.State Text
  unfolding write_to_temp create_temp_archive_file_path parent_path
  write_backup_archive data_path extensions_path git_mode s =
      let (configured, w) = aw.set_options aw.new_writer in
      let (filtered, w') = aw.add_zstd w in
      if not configured
      then (
        fail archive_error
            (codes "Failed to configure archive writer options: " ++ aw.error_string w),
        s,
      )
      else if not filtered
      then (fail archive_error (codes "Failed to enable zstd filter: " ++ aw.error_string w'), s)
      else (create_temp_archive_file_path fs setup.number_text setup.env
              (preferred_temp_directory data_path)
            >>= λ temp_path u.
                let (r, x) = write_to_temp data_path extensions_path git_mode temp_path (w', u) in
                (r, x.1))
          s

-- `validate_backup_archive`: every entry of the archive can be read.
module _ (ar : ArchiveReader) (skip_data : ar.Reader → Bool × ar.Reader) where
  abbrev invalid : ar.Reader → Result (Unit {0})
  invalid r = fail archive_error (codes "Archive validation failed: " ++ ar.error_string r)

  unfoldable pub validate_loop : ℕ → ar.Reader → Result (Unit {0}) × ar.Reader
  validate_loop zero r = (looping, r)
  validate_loop (suc entries) r =
      let (e, r') = ar.next_header r in
      elim e [
        | no_header ↦ (invalid r', r')
        | end_of_archive ↦ (ok tt, r')
        | entry path file_type mode ↦
            let (done, r'') = skip_data r' in
            elim done [ Bool.false ↦ (invalid r'', r'') | Bool.true ↦ validate_loop entries r'' ]
      ]

  unfoldable pub validate_backup_archive : ℕ → Text → Result (Unit {0})
  unfolding validate_loop
  validate_backup_archive entries archive_bytes =
      if is_empty archive_bytes
      then fail archive_error (codes "Archive stream is empty")
      else if not (ar.opens archive_bytes)
      then fail archive_error (
          codes "Failed to open archive input stream: "
          ++ ar.error_string (ar.open_memory archive_bytes))
      else (let (r, reader) = validate_loop entries (ar.open_memory archive_bytes) in
          (settle r (λ e. lift (err e))
            (λ _. lift (
              if not (ar.closes reader)
              then fail archive_error
                  (codes "Failed to close archive reader: " ++ ar.error_string reader)
              else ok tt))
            reader).0)
