-- ===== src/PathSafety/Disk.antt =====
-- The calls of the operating system that src/path_safety.cpp makes, over an unknown state of the
-- disk. `path_lstat` and `path_mkdir` of src/platform_compat.cpp pass on to `lstat` and `mkdir`.
use stmanager.Prelude.{ℕ, Text, Option, none, ◌≡◌}

pub data FileType : Type 0 where
  directory regular_file symlink other_file : FileType

-- The answer of `lstat` and `stat`: the type of the file, or the value of `errno`.
pub data Probe : Type 0 where
  found : FileType → Probe
  failed : ℕ → Probe

pub record Disk : Type 1 where
  pub State : Type 0
  pub lstat : State → Text → Probe
  pub stat : State → Text → Probe
  -- `none` if the directory was made, else the value of `errno`
  pub mkdir : State → Text → ℕ → Option ℕ × State
  pub strerror : ℕ → Text

abbrev pub enoent : ℕ
enoent = 2

-- What POSIX says of `mkdir`: a directory that it made is there and is no symbolic link, and what
-- was there before stays.
pub record IsPosix (os : Disk) : Type 0 where
  pub lstat-mkdir_self :
      (s : os.State) (p : Text) (mode : ℕ)
      → (os.mkdir s p mode).0 ≡ none
      → os.lstat (os.mkdir s p mode).1 p ≡ found directory
  pub lstat-mkdir_found :
      (s : os.State) (p q : Text) (mode : ℕ) (t : FileType)
      → os.lstat s q ≡ found t
      → os.lstat (os.mkdir s p mode).1 q ≡ found t
