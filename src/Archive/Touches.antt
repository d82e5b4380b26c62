-- ===== src/Archive/Touches.antt =====
-- What the extraction of an archive may do to the disk.
use stmanager.Prelude.{
  ℕ, zero, suc, Text, false, is_empty, drop, Option, none, some, List, ◌∷◌, ◌++◌, ◌≡◌,
}
use stmanager.Status.{Result, ok}
use stmanager.PathSafety.Disk.{Disk}
use stmanager.PathSafety.Paths.{split_path, join_path, validate_archive_relative_path}
use stmanager.PathSafety.Ensure.{reject_existing_symlink}
use stmanager.PathSafety.Location.{names}
use stmanager.PathSafety.Guarantees.{descend, AllDirectories, walked}
use stmanager.Server.Trust.{if_done-keeps}
use stmanager.Files.Calls.{opened, not_opened, Writing, bytes_written, write_failed, FileCalls}
use stmanager.Files.Copy.{write_loop}

module _ {os : Disk} (fs : FileCalls os) (root : Text) where
  -- When a file is opened for an entry: its path has passed the check, each parent of it below the
  -- directory is a directory and no symbolic link, and it is no symbolic link itself.
  pub record MayOpen (archive_path : Text) (u : os.State) : Type 0 where
    pub valid : validate_archive_relative_path archive_path ≡ ok tt
    pub parents : AllDirectories os u root (names (walked os false (split_path archive_path)))
    pub no_symlink : reject_existing_symlink os (join_path root archive_path) u ≡ ok tt

  -- The second state comes from the first by these calls, in any number: with no file open, making
  -- a directory whose parents below `root` are directories and no symbolic links, by the names of a
  -- path that has passed the check; with no file open, opening one that may be opened, which
  -- succeeds or fails; writing to the file that is open; and closing it. The file that is open is
  -- the first index.
  pub data Touched (s : os.State) : Option ℕ → os.State → Type 0 where
    nothing : Touched s none s
    directory_made :
        {u : os.State} (archive_path name : Text) (taken rest : List Text) (mode : ℕ)
        → validate_archive_relative_path archive_path ≡ ok tt
        → names (split_path archive_path) ≡ taken ++ name ∷ rest
        → AllDirectories os u root taken
        → Touched s none u
        → Touched s none (os.mkdir u (join_path (descend root taken) name) mode).1
    file_not_opened :
        {u : os.State} (archive_path : Text) (mode errno : ℕ)
        → MayOpen archive_path u
        → (fs.open_write_trunc (join_path root archive_path) mode u).0 ≡ not_opened errno
        → Touched s none u
        → Touched s none (fs.open_write_trunc (join_path root archive_path) mode u).1
    file_opened :
        {u : os.State} (archive_path : Text) (mode fd : ℕ)
        → MayOpen archive_path u
        → (fs.open_write_trunc (join_path root archive_path) mode u).0 ≡ opened fd
        → Touched s none u
        → Touched s (some fd) (fs.open_write_trunc (join_path root archive_path) mode u).1
    file_written :
        {u : os.State} (fd : ℕ) (bytes : Text)
        → Touched s (some fd) u
        → Touched s (some fd) (fs.write_fd fd bytes u).1
    file_closed :
        {u : os.State} (fd : ℕ) → Touched s (some fd) u → Touched s none (fs.close_fd fd u)

  written-keeps :
      (P : os.State → Type 0) (w : Writing) (f g : ℕ → Result (Unit {0}) × os.State)
      → ((n : ℕ) → P (f n).1)
      → ((n : ℕ) → P (g n).1)
      → P
          (elim w as (λ _. Result (Unit {0}) × os.State) [
            | write_failed n ↦ f n
            | bytes_written n ↦ g n
          ]).1
  written-keeps P (write_failed n) f g a b = a n
  written-keeps P (bytes_written n) f g a b = b n

  pub write_loop-Touched :
      (rounds fd : ℕ) (path bytes : Text) (s u : os.State)
      → Touched s (some fd) u
      → Touched s (some fd) (write_loop fs rounds fd path bytes u).1
  unfolding write_loop
  write_loop-Touched zero fd path bytes s u h = h
  write_loop-Touched (suc rounds) fd path bytes s u h =
      if_done-keeps (Touched s (some fd)) (is_empty bytes) _ _ (λ e. h)
        (λ e.
          written-keeps (Touched s (some fd)) (fs.write_fd fd bytes u).0 _
            (λ n. write_loop fs rounds fd path (drop n bytes) (fs.write_fd fd bytes u).1)
            (λ n. file_written fd bytes h)
            (λ n.
              write_loop-Touched rounds fd path (drop n bytes) s (fs.write_fd fd bytes u).1
                (file_written fd bytes h)))
