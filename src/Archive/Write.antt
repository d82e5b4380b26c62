-- ===== src/Archive/Write.antt =====
-- src/archive_stream.cpp: the entries of a backup. What libarchive writes, and where it keeps it, is
-- a parameter.
use stmanager.Prelude.{
  ℕ, zero, suc, ◌-◌, min, Text, Bool, false, codes, is_empty, text_eq, length, drop, List, [], ◌∷◌,
  ◌++◌, ◌==◌, ◌&&◌, ◌||◌, if◌then◌else◌,
}
use stmanager.Status.{
  ok, looping, fail, Exec, pure, throw, ◌>>◌, io_error, archive_error, unsupported_archive_entry,
}
use stmanager.Json.{text_lt}
use stmanager.PathSafety.Disk.{FileType, directory, regular_file, found, failed, Disk}
use stmanager.PathSafety.Paths.{join_path}
use stmanager.Files.Calls.{
  listed, not_listed, opened, not_opened, bytes_read, read_failed, FileCalls, make_io_error,
  is_dot_name,
}

-- `archive_write_*`. The calls that return a status return whether it is ARCHIVE_OK;
-- `archive_write_data` the number of bytes, with 0 for an error as well.
pub record ArchiveWriter (os : Disk) : Type 1 where
  pub Writer : Type 0
  pub new_writer : Writer
  pub set_options : Writer → Bool × Writer
  pub add_zstd : Writer → Bool × Writer
  pub open_filename : Text → Writer × os.State → Bool × (Writer × os.State)
  -- path, type, permissions, time of change, size
  pub write_header : Text → FileType → ℕ → ℕ → ℕ → Writer × os.State → Bool × (Writer × os.State)
  pub write_data : Text → Writer × os.State → ℕ × (Writer × os.State)
  pub finish_entry : Writer × os.State → Bool × (Writer × os.State)
  pub close_writer : Writer × os.State → Bool × (Writer × os.State)
  pub error_string : Writer → Text

module _ {os : Disk} (fs : FileCalls os) (aw : ArchiveWriter os) where
  -- A call whose failure is reported with the error of the writer.
  abbrev pub reported_call :
      Text
      → (aw.Writer × os.State → Bool × (aw.Writer × os.State))
      → Exec (aw.Writer × os.State) (Unit {0})
  reported_call message call s =
      let (done, s') = call s in
      if done then (ok tt, s') else (fail archive_error (message ++ aw.error_string s'.0), s')

  unfoldable pub write_entry_header :
      Text → FileType → ℕ → ℕ → ℕ → Exec (aw.Writer × os.State) (Unit {0})
  write_entry_header archive_path FileType.directory permissions modified file_size =
      reported_call (codes "Failed to write archive header: ")
        (aw.write_header archive_path directory permissions modified 0)
  write_entry_header archive_path FileType.regular_file permissions modified file_size =
      reported_call (codes "Failed to write archive header: ")
        (aw.write_header archive_path regular_file permissions modified file_size)
  write_entry_header archive_path FileType.symlink permissions modified file_size =
      throw unsupported_archive_entry (codes "Unsupported file type in backup source")
  write_entry_header archive_path FileType.other_file permissions modified file_size =
      throw unsupported_archive_entry (codes "Unsupported file type in backup source")

  unfoldable pub write_archive_data : ℕ → Text → Text → Exec (aw.Writer × os.State) (Unit {0})
  write_archive_data zero bytes error_prefix s = (looping, s)
  write_archive_data (suc rounds) bytes error_prefix s =
      if is_empty bytes
      then (ok tt, s)
      else (let (n, s') = aw.write_data bytes s in
          elim n [
            | zero ↦ (fail archive_error (error_prefix ++ (codes ": " ++ aw.error_string s'.0)), s')
            | suc m ↦ write_archive_data rounds (drop (suc m) bytes) error_prefix s'
          ])

  unfoldable pub finalize_archive_entry : Text → Exec (aw.Writer × os.State) (Unit {0})
  finalize_archive_entry context = reported_call (context ++ codes ": ") aw.finish_entry

  abbrev pub file_buffer_size : ℕ
  file_buffer_size = 65536

  unfoldable pub file_data_loop : ℕ → ℕ → Text → ℕ → Exec (aw.Writer × os.State) (Unit {0})
  unfolding write_archive_data
  file_data_loop zero fd source_path remaining s = (looping, s)
  file_data_loop (suc rounds) fd source_path remaining (w, s) =
      if remaining == 0
      then (ok tt, (w, s))
      else (let (r, s') = fs.read_fd fd (min remaining file_buffer_size) s in
          elim r [
            | read_failed errno ↦ (make_io_error os (codes "read") source_path errno, (w, s'))
            | bytes_read bytes ↦
                if is_empty bytes
                then (
                  fail io_error
                      (codes "File changed during backup (unexpected EOF): " ++ source_path),
                  (w, s'),
                )
                else (write_archive_data rounds bytes (codes "Failed to write file data to archive")
                      >> file_data_loop rounds fd source_path (remaining - length bytes))
                    (w, s')
          ])

  abbrev closing :
      ℕ → Exec (aw.Writer × os.State) (Unit {0}) → Exec (aw.Writer × os.State) (Unit {0})
  closing fd m s = let (r, s') = m s in (r, (s'.0, fs.close_fd fd s'.1))

  unfoldable pub write_regular_file_data : ℕ → Text → ℕ → Exec (aw.Writer × os.State) (Unit {0})
  unfolding file_data_loop finalize_archive_entry
  write_regular_file_data rounds source_path expected_file_size (w, s) =
      let (f, s') = fs.open_read source_path s in
      elim f [
        | not_opened errno ↦ (make_io_error os (codes "open") source_path errno, (w, s'))
        | opened fd ↦
            (closing fd (file_data_loop rounds fd source_path expected_file_size)
                >> finalize_archive_entry (codes "Failed to finalize archive file entry"))
              (w, s')
      ]

  unfoldable pub insert_name : Text → List Text → List Text
  insert_name x [] = x ∷ []
  insert_name x (y ∷ rest) = if text_lt y x then y ∷ insert_name x rest else x ∷ y ∷ rest

  abbrev is_name_in : Text → List Text → Bool
  is_name_in value [] = false
  is_name_in value (x ∷ rest) = text_eq x value || is_name_in value rest

  -- The names of a directory that are written, in order; `skipped` are left out of `extensions`.
  unfoldable pub child_names : Text → List Text → List Text → List Text
  unfolding insert_name
  child_names archive_path skipped [] = []
  child_names archive_path skipped (name ∷ rest) =
      if is_dot_name name || (text_eq archive_path (codes "extensions") && is_name_in name skipped)
      then child_names archive_path skipped rest
      else insert_name name (child_names archive_path skipped rest)

  unfoldable pub write_children :
      (Text → Exec (aw.Writer × os.State) (Unit {0}))
      → List Text
      → Exec (aw.Writer × os.State) (Unit {0})
  write_children call [] = pure tt
  write_children call (name ∷ rest) = call name >> write_children call rest

  -- `write` is `write_file_or_directory` for a child.
  unfoldable pub write_directory_recursive :
      (Text → Text → Exec (aw.Writer × os.State) (Unit {0}))
      → List Text
      → Text
      → Text
      → Exec (aw.Writer × os.State) (Unit {0})
  unfolding write_entry_header finalize_archive_entry child_names write_children
  write_directory_recursive write skipped source_path archive_path (w, s) =
      elim (os.lstat s source_path) [
        | failed errno ↦ (make_io_error os (codes "lstat") source_path errno, (w, s))
        | found t ↦
            (write_entry_header archive_path t (fs.permissions s source_path)
                  (fs.modified s source_path) 0
                >> (finalize_archive_entry (codes "Failed to finalize archive directory entry")
                    >> (λ u. elim (fs.list_directory u.1 source_path) [
                      | not_listed errno ↦ (make_io_error os (codes "opendir") source_path errno, u)
                      | listed names ↦
                          write_children
                            (λ name.
                              write (join_path source_path name) (join_path archive_path name))
                            (child_names archive_path skipped names) u
                    ])))
              (w, s)
      ]

  unfoldable pub write_file_or_directory :
      ℕ → ℕ → Text → Text → Exec (aw.Writer × os.State) (Unit {0})
  unfolding write_directory_recursive write_regular_file_data
  write_file_or_directory rounds zero source_path archive_path s = (looping, s)
  write_file_or_directory rounds (suc depth) source_path archive_path (w, s) =
      elim (os.lstat s source_path) [
        | failed errno ↦ (make_io_error os (codes "lstat") source_path errno, (w, s))
        | found FileType.directory ↦
            write_directory_recursive (write_file_or_directory rounds depth) [] source_path
              archive_path (w, s)
        | found FileType.symlink ↦
            throw unsupported_archive_entry (codes "Symlink entries are not supported for backup")
              (w, s)
        | found FileType.regular_file ↦
            (write_entry_header archive_path regular_file (fs.permissions s source_path)
                  (fs.modified s source_path) (fs.file_size s source_path)
                >> write_regular_file_data rounds source_path (fs.file_size s source_path))
              (w, s)
        | found FileType.other_file ↦
            throw unsupported_archive_entry (codes "Unsupported file type in backup source") (w, s)
      ]

  unfoldable pub write_manifest_file : ℕ → Text → ℕ → Exec (aw.Writer × os.State) (Unit {0})
  unfolding write_entry_header write_archive_data finalize_archive_entry
  write_manifest_file rounds json_manifest now =
      write_entry_header (codes ".stmanager/extensions_git_manifest.json") regular_file 420 now
        (length json_manifest)
      >> (write_archive_data rounds json_manifest
            (codes "Failed writing git manifest archive entry")
          >> finalize_archive_entry (codes "Failed to finalize manifest archive entry"))
