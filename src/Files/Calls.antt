-- ===== src/Files/Calls.antt =====
-- The calls of the operating system that src/fs_ops.cpp and src/archive_stream.cpp make beside those
-- of PathSafety, and the statuses that report their failures.
use stmanager.Prelude.{ℕ, Text, Bool, true, false, codes, text_eq, Option, List, ◌++◌, ◌||◌}
use stmanager.Status.{Result, fail, io_error}
use stmanager.PathSafety.Disk.{FileType, Probe, found, failed, Disk}

-- `opendir` and `readdir` up to the end: the names, or `errno`. Entries that are made or removed
-- while a directory is read are not seen.
pub data Listing : Type 0 where
  listed : List Text → Listing
  not_listed : ℕ → Listing

-- `open`: a descriptor, or `errno`.
pub data Opened : Type 0 where
  opened : ℕ → Opened
  not_opened : ℕ → Opened

pub data Reading : Type 0 where
  bytes_read : Text → Reading
  read_failed : ℕ → Reading

pub data Writing : Type 0 where
  bytes_written : ℕ → Writing
  write_failed : ℕ → Writing

-- `mkdtemp` and `mkstemp`: the path that was made, or `errno`.
pub data TempPath : Type 0 where
  made : Text → TempPath
  not_made : ℕ → TempPath

pub record FileCalls (os : Disk) : Type 0 where
  -- the permission bits that `lstat` gives, `st_mode & 0777`
  pub permissions : os.State → Text → ℕ
  -- `st_size` and `st_mtime`
  pub file_size : os.State → Text → ℕ
  pub modified : os.State → Text → ℕ
  pub list_directory : os.State → Text → Listing
  pub open_read : Text → os.State → Opened × os.State
  pub open_write_trunc : Text → ℕ → os.State → Opened × os.State
  pub read_fd : ℕ → ℕ → os.State → Reading × os.State
  pub write_fd : ℕ → Text → os.State → Writing × os.State
  pub close_fd : ℕ → os.State → os.State
  -- `none` if the call succeeded, else `errno`
  pub unlink : Text → os.State → Option ℕ × os.State
  pub rmdir : Text → os.State → Option ℕ × os.State
  pub rename : Text → Text → os.State → Option ℕ × os.State
  pub mkstemp : Text → os.State → TempPath × os.State
  pub mkdtemp : Text → os.State → TempPath × os.State

abbrev pub exdev : ℕ
exdev = 18

unfoldable pub make_io_error {ℓ} : {A : Type ℓ} (os : Disk) → Text → Text → ℕ → Result A
make_io_error os action path error_number =
    fail io_error
      (action ++ (codes " failed for path " ++ (path ++ (codes ": " ++ os.strerror error_number))))

unfoldable pub is_dot_name : Text → Bool
is_dot_name name = text_eq name (codes ".") || text_eq name (codes "..")

abbrev pub is_found : Probe → Bool
is_found (found t) = true
is_found (failed errno) = false

abbrev pub is_found_directory : Probe → Bool
is_found_directory (found FileType.directory) = true
is_found_directory _ = false

module _ (os : Disk) where
  unfoldable pub path_exists : Text → os.State → Bool
  path_exists path s = is_found (os.lstat s path)

  unfoldable pub path_is_directory : Text → os.State → Bool
  path_is_directory path s = is_found_directory (os.lstat s path)
