-- ===== src/Archive/Ends.antt =====
-- That the extraction of an archive ends.
use stmanager.Prelude.{
  ℕ, zero, suc, ◌+◌, ◌%◌, ◌<◌, Text, true, false, codes, ◌++◌, none, some, ◌≡◌, refl, arith,
}
use stmanager.Status.{
  Result, ok, fail, Exec, throw, ◌>>◌, archive_error, invalid_archive_entry,
  unsupported_archive_entry,
}
use stmanager.PathSafety.Disk.{FileType, Disk}
use stmanager.PathSafety.Paths.{join_destination_path}
use stmanager.PathSafety.Ensure.{
  ensure_archive_entry_directory, ensure_archive_entry_parent_directories, reject_existing_symlink,
}
use stmanager.Client.Branches.{returns_status}
use stmanager.Files.Calls.{Opened, opened, not_opened, FileCalls, make_io_error}
use stmanager.Archive.Entries.{
  close_entry, Header, entry, end_of_archive, no_header, ArchiveReader, entry_data_loop,
  write_entry, restore_regular_file, restore_directory, restore_entry, extract_archive_to_directory,
}
use stmanager.Archive.Answers.{
  continue-returns, join_destination_path-returns, reject_existing_symlink-returns,
  ensure_archive_entry_directory_impl-returns,
}
use stmanager.Archive.Rounds.{
  Progresses, FiniteArchive, IsHeaderRead, IsDataRead, Ended, continue-Ended, entry_data_loop-Ended,
}

module _ {os : Disk} (fs : FileCalls os)
    (progress : (fd : ℕ) (b : Text) (s : os.State) → Progresses b (fs.write_fd fd b s).0) where
  module _ (ar : ArchiveReader) (size : FiniteArchive ar)
      (header : (r : ar.Reader) → IsHeaderRead size r (ar.next_header r).0 (ar.next_header r).1)
      (read : (r : ar.Reader) (n : ℕ)
        → IsDataRead size r (ar.read_data r n).0 (ar.read_data r n).1) where
    write_entry-Ended :
        (rounds : ℕ) (path : Text) (mode : ℕ) (r : ar.Reader) (s : os.State)
        → size.bytes r + 1 < rounds
        → Ended size (size.headers r) (size.bytes r) (write_entry fs ar rounds path mode (r, s))
    unfolding write_entry make_io_error
    write_entry-Ended rounds path mode r s h =
        after (fs.open_write_trunc path (mode % 512) s).0
          (fs.open_write_trunc path (mode % 512) s).1
      where
        after :
            (f : Opened) (s' : os.State)
            → Ended size
                (size.headers r)
                (size.bytes r)
                (elim f as (λ _. Result (Unit {0}) × (ar.Reader × os.State)) [
                  | not_opened errno ↦ (make_io_error os (codes "open") path errno, (r, s'))
                  | opened fd ↦ close_entry fs ar fd (entry_data_loop fs ar rounds fd path) (r, s')
                ])
        after (not_opened errno) s' = (refl, omega arith, omega arith)
        after (opened fd) s' =
            entry_data_loop-Ended fs progress ar size header read rounds fd path r s' h

    restore_regular_file-Ended :
        (rounds : ℕ) (root path destination : Text) (mode : ℕ) (r : ar.Reader) (s : os.State)
        → size.bytes r + 1 < rounds
        → Ended size
            (size.headers r)
            (size.bytes r)
            (restore_regular_file fs ar rounds root path destination mode (r, s))
    unfolding restore_regular_file ensure_archive_entry_parent_directories
    restore_regular_file-Ended rounds root path destination mode r s h =
        let n = size.headers r in
        let m = size.bytes r in
        let x = ensure_archive_entry_parent_directories os root path 493 s in
        continue-Ended size n m x.0 _ (r, x.1)
          (ensure_archive_entry_directory_impl-returns os root path 493 false s) (omega arith)
          (omega arith)
          (λ u.
            continue-Ended size n m (reject_existing_symlink os destination x.1) _ (r, x.1)
              (reject_existing_symlink-returns os destination x.1) (omega arith) (omega arith)
              (λ v. write_entry-Ended rounds destination mode r x.1 h))

    -- An entry that is restored, or not.
    restore_entry-Ended :
        (rounds : ℕ) (root path : Text) (file_type : FileType) (mode : ℕ) (r : ar.Reader)
        (s : os.State)
        → size.bytes r + 1 < rounds
        → Ended size
            (size.headers r)
            (size.bytes r)
            (restore_entry fs ar rounds root path file_type mode (r, s))
    unfolding restore_entry restore_directory ensure_archive_entry_directory
    restore_entry-Ended rounds root path file_type mode r s h =
        continue-Ended size (size.headers r) (size.bytes r) (join_destination_path root path) _
          (r, s) (join_destination_path-returns root path) (omega arith) (omega arith)
          (λ destination. of_type destination file_type)
      where
        of_type :
            (destination : Text) (file_type : FileType)
            → Ended size (size.headers r) (size.bytes r) (
                (elim file_type as (λ _. Exec (ar.Reader × os.State) (Unit {0})) [
                  | FileType.directory ↦ restore_directory fs ar root path mode
                  | FileType.regular_file ↦
                      restore_regular_file fs ar rounds root path destination mode
                  | FileType.symlink ↦
                      throw unsupported_archive_entry
                        (codes "Restore supports only regular files and directories")
                  | FileType.other_file ↦
                      throw unsupported_archive_entry
                        (codes "Restore supports only regular files and directories")
                ])
                  (r, s))
        of_type destination FileType.directory = (
          ensure_archive_entry_directory_impl-returns os root path (mode % 512) true s,
          omega arith,
          omega arith,
        )
        of_type destination FileType.regular_file =
            restore_regular_file-Ended rounds root path destination mode r s h
        of_type destination FileType.symlink = (refl, omega arith, omega arith)
        of_type destination FileType.other_file = (refl, omega arith, omega arith)

    -- If a write of some bytes takes at least one of them or fails, if every header that is read
    -- leaves fewer headers and every chunk leaves as many bytes fewer as it has, then the
    -- extraction of an archive with fewer headers than `entries` and at least two bytes fewer than
    -- `rounds` returns a status: neither loop runs out of rounds and nothing is thrown.
    pub extract_archive_to_directory-returns :
        (rounds entries : ℕ) (root : Text) (r : ar.Reader) (s : os.State)
        → size.headers r < entries
        → size.bytes r + 1 < rounds
        → returns_status (extract_archive_to_directory fs ar rounds entries root (r, s)).0 ≡ true
    unfolding extract_archive_to_directory
    extract_archive_to_directory-returns rounds zero root r s p q = absurd (omega arith)
    extract_archive_to_directory-returns rounds (suc entries) root r s p q =
        after (extract_archive_to_directory-returns rounds entries root) (ar.next_header r).0
          (ar.next_header r).1 (header r)
      where
        after :
            ((r : ar.Reader) (s : os.State)
              → size.headers r < entries
              → size.bytes r + 1 < rounds
              → returns_status (extract_archive_to_directory fs ar rounds entries root (r, s)).0
                ≡ true)
            → (e : Header) (r' : ar.Reader) → IsHeaderRead size r e r'
            → returns_status
                (elim e as (λ _. Result (Unit {0}) × (ar.Reader × os.State)) [
                  | no_header ↦ (
                    fail archive_error
                        (codes "Failed to read archive header: " ++ ar.error_string r'),
                    (r', s),
                  )
                  | end_of_archive ↦ (ok tt, (r', s))
                  | entry none file_type mode ↦
                      (fail invalid_archive_entry (codes "Archive entry has no path"), (r', s))
                  | entry (some path) file_type mode ↦
                      (restore_entry fs ar rounds root path file_type mode
                          >> extract_archive_to_directory fs ar rounds entries root)
                        (r', s)
                ]).0
              ≡ true
        after again no_header r' g = refl
        after again end_of_archive r' g = refl
        after again (entry none file_type mode) r' g = refl
        after again (entry (some path) file_type mode) r' g =
            let x = restore_entry fs ar rounds root path file_type mode (r', s) in
            let e = restore_entry-Ended rounds root path file_type mode r' s (omega arith) in
            continue-returns x.0 _ x.1 e.0 (λ u. again x.1.0 x.1.1 (omega arith) (omega arith))
