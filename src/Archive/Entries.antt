-- ===== src/Archive/Entries.antt =====
-- src/archive_stream.cpp: `extract_archive_to_directory`. What libarchive reads is a parameter.
use stmanager.Prelude.{
  ℕ, zero, suc, ◌%◌, Text, Bool, codes, is_empty, Option, none, some, ◌++◌, if◌then◌else◌,
}
use stmanager.Status.{
  ok, looping, fail, Exec, throw, lift, ◌>>=◌, ◌>>◌, archive_error, invalid_archive_entry,
  unsupported_archive_entry,
}
use stmanager.PathSafety.Disk.{FileType, Disk}
use stmanager.PathSafety.Paths.{join_destination_path}
use stmanager.PathSafety.Ensure.{
  ensure_archive_entry_directory, ensure_archive_entry_parent_directories, reject_existing_symlink,
}
use stmanager.Files.Calls.{opened, not_opened, FileCalls, make_io_error}
use stmanager.Files.Copy.{write_loop, buffer_size}

-- `archive_read_next_header`: an entry with its path, if it has one, its type and its permissions.
pub data Header : Type 0 where
  entry : Option Text → FileType → ℕ → Header
  end_of_archive : Header
  no_header : Header

-- `archive_read_data`: a chunk, empty at the end of an entry.
pub data Chunk : Type 0 where
  chunk : Text → Chunk
  no_chunk : Chunk

pub record ArchiveReader : Type 1 where
  pub Reader : Type 0
  pub open_memory : Text → Reader
  pub opens : Text → Bool
  pub next_header : Reader → Header × Reader
  pub read_data : Reader → ℕ → Chunk × Reader
  pub closes : Reader → Bool
  pub error_string : Reader → Text

module _ {os : Disk} (fs : FileCalls os) (ar : ArchiveReader) where
  abbrev pub on_disk : {A : Type 0} → Exec os.State A → Exec (ar.Reader × os.State) A
  on_disk m (r, s) = let (a, s') = m s in (a, (r, s'))

  -- The chunks of an entry, each of which is written whole.
  unfoldable pub entry_data_loop : ℕ → ℕ → Text → Exec (ar.Reader × os.State) (Unit {0})
  unfolding write_loop
  entry_data_loop zero fd path s = (looping, s)
  entry_data_loop (suc rounds) fd path (r, s) =
      let (c, r') = ar.read_data r (buffer_size fs) in
      elim c [
        | no_chunk ↦ (
          fail archive_error (codes "Failed to read archive file entry: " ++ ar.error_string r'),
          (r', s),
        )
        | chunk bytes ↦
            if is_empty bytes
            then (ok tt, (r', s))
            else (on_disk (write_loop fs rounds fd path bytes) >> entry_data_loop rounds fd path)
                (r', s)
      ]

  abbrev pub close_entry :
      ℕ → Exec (ar.Reader × os.State) (Unit {0}) → Exec (ar.Reader × os.State) (Unit {0})
  close_entry fd m s = let (a, s') = m s in (a, (s'.0, fs.close_fd fd s'.1))

  unfoldable pub write_entry : ℕ → Text → ℕ → Exec (ar.Reader × os.State) (Unit {0})
  unfolding entry_data_loop
  write_entry rounds destination_path mode (r, s) =
      let (f, s') = fs.open_write_trunc destination_path (mode % 512) s in
      elim f [
        | not_opened errno ↦ (make_io_error os (codes "open") destination_path errno, (r, s'))
        | opened fd ↦ close_entry fd (entry_data_loop rounds fd destination_path) (r, s')
      ]

  abbrev pub checked : Text → Exec (ar.Reader × os.State) (Unit {0})
  checked path (r, s) = (reject_existing_symlink os path s, (r, s))

  unfoldable pub restore_regular_file :
      ℕ → Text → Text → Text → ℕ → Exec (ar.Reader × os.State) (Unit {0})
  unfolding write_entry
  restore_regular_file rounds destination_root archive_path destination_path mode =
      on_disk (ensure_archive_entry_parent_directories os destination_root archive_path 493)
      >> (checked destination_path >> write_entry rounds destination_path mode)

  unfoldable pub restore_directory : Text → Text → ℕ → Exec (ar.Reader × os.State) (Unit {0})
  restore_directory destination_root archive_path mode =
      on_disk (ensure_archive_entry_directory os destination_root archive_path (mode % 512))

  unfoldable pub restore_entry :
      ℕ → Text → Text → FileType → ℕ → Exec (ar.Reader × os.State) (Unit {0})
  unfolding restore_regular_file restore_directory
  restore_entry rounds destination_root archive_path file_type mode =
      lift (join_destination_path destination_root archive_path) >>= λ destination_path.
      elim file_type [
        | FileType.directory ↦ restore_directory destination_root archive_path mode
        | FileType.regular_file ↦
            restore_regular_file rounds destination_root archive_path destination_path mode
        | FileType.symlink ↦
            throw unsupported_archive_entry
              (codes "Restore supports only regular files and directories")
        | FileType.other_file ↦
            throw unsupported_archive_entry
              (codes "Restore supports only regular files and directories")
      ]

  -- `entries` bounds the number of headers, `rounds` the calls of the loops of one entry.
  unfoldable pub extract_archive_to_directory :
      ℕ → ℕ → Text → Exec (ar.Reader × os.State) (Unit {0})
  unfolding restore_entry
  extract_archive_to_directory rounds zero destination_root s = (looping, s)
  extract_archive_to_directory rounds (suc entries) destination_root (r, s) =
      let (e, r') = ar.next_header r in
      elim e [
        | no_header ↦ (
          fail archive_error (codes "Failed to read archive header: " ++ ar.error_string r'),
          (r', s),
        )
        | end_of_archive ↦ (ok tt, (r', s))
        | entry none file_type mode ↦
            (fail invalid_archive_entry (codes "Archive entry has no path"), (r', s))
        | entry (some archive_path) file_type mode ↦
            (restore_entry rounds destination_root archive_path file_type mode
                >> extract_archive_to_directory rounds entries destination_root)
              (r', s)
      ]
