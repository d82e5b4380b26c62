-- ===== src/Tests/Extractions.antt =====
-- The theorems of the extraction at an archive with one file.
use stmanager.Prelude.{
  ℕ, zero, suc, arith, List, Text, true, codes, length, none, some, [], ◌∷◌, ◌≡◌,
}
use stmanager.PathSafety.Disk.{regular_file}
use stmanager.Files.Calls.{listed, opened, bytes_read, bytes_written, made, FileCalls}
use stmanager.Archive.Entries.{
  Header, entry, end_of_archive, Chunk, chunk, ArchiveReader, extract_archive_to_directory,
}
use stmanager.Archive.Rounds.{Progresses, FiniteArchive, IsHeaderRead, IsDataRead}
use stmanager.Archive.Ends.{extract_archive_to_directory-returns}
use stmanager.Client.Branches.{returns_status}
use stmanager.Tests.Sessions.{full_disk}

-- Files that are listed when they are opened, with the bytes that are written.
abbrev pub logging_calls : FileCalls full_disk
logging_calls = record {
  permissions = λ s path. 493;
  file_size = λ s path. 0;
  modified = λ s path. 0;
  list_directory = λ s path. listed [];
  open_read = λ path s. (opened 3, s);
  open_write_trunc = λ path mode s. (opened 4, path ∷ s);
  read_fd = λ fd n s. (bytes_read [], s);
  write_fd = λ fd bytes s. (bytes_written (length bytes), bytes ∷ s);
  close_fd = λ fd s. s;
  unlink = λ path s. (none, s);
  rmdir = λ path s. (none, s);
  rename = λ source destination s. (none, s);
  mkstemp = λ template s. (made template, s);
  mkdtemp = λ template s. (made template, s);
}

abbrev next_of_one : ℕ → Header × ℕ
next_of_one zero = (entry (some (codes "data/a")) regular_file 420, 1)
next_of_one (suc n) = (end_of_archive, suc n)

abbrev chunk_of_one : ℕ → Chunk × ℕ
chunk_of_one zero = (chunk [], 0)
chunk_of_one (suc zero) = (chunk (120 ∷ []), 2)
chunk_of_one (suc (suc n)) = (chunk [], suc (suc n))

-- An archive with one file.
abbrev one_file : ArchiveReader
one_file = record {
  Reader = ℕ;
  open_memory = λ bytes. 0;
  opens = λ bytes. true;
  next_header = next_of_one;
  read_data = λ n size. chunk_of_one n;
  closes = λ n. true;
  error_string = λ n. [];
}

abbrev headers_left : ℕ → ℕ
headers_left zero = 1
headers_left (suc n) = 0

abbrev bytes_left : ℕ → ℕ
bytes_left zero = 1
bytes_left (suc zero) = 1
bytes_left (suc (suc n)) = 0

abbrev one_left : FiniteArchive one_file
one_left = record { headers = headers_left; bytes = bytes_left }

one_header : (n : ℕ) → IsHeaderRead one_left n (one_file.next_header n).0 (one_file.next_header n).1
one_header zero = (omega arith, omega arith)
one_header (suc n) = tt

one_read :
    (n size : ℕ) → IsDataRead one_left n (one_file.read_data n size).0 (one_file.read_data n size).1
one_read zero size = (omega arith, omega arith)
one_read (suc zero) size = (omega arith, omega arith)
one_read (suc (suc n)) size = (omega arith, omega arith)

all_written :
    (fd : ℕ) (bytes : Text) (s : List Text) → Progresses bytes (logging_calls.write_fd fd bytes s).0
all_written fd bytes s h = h

extract_archive_to_directory-returns_example :
    returns_status (extract_archive_to_directory logging_calls one_file 4 2 (codes "/s") (0, [])).0
    ≡ true
extract_archive_to_directory-returns_example =
    extract_archive_to_directory-returns logging_calls all_written one_file one_left one_header
      one_read 4 2 (codes "/s") 0 [] (omega arith) (omega arith)
