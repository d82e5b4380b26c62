-- ===== src/Files/Remove.antt =====
-- src/fs_ops.cpp: `remove_path_recursive` and `create_temp_directory_under`.
use stmanager.Prelude.{
  ℕ, zero, suc, Text, codes, not, ◌==◌, Option, none, some, ◌++◌, if◌then◌else◌,
}
use stmanager.Status.{Result, ok, looping, Exec, ◌>>=◌, ◌>>◌}
use stmanager.PathSafety.Disk.{found, failed, Disk, enoent}
use stmanager.PathSafety.Paths.{join_path}
use stmanager.PathSafety.Ensure.{
  is_directory_type, ensure_directory_tree_following_existing_symlinks,
}
use stmanager.Files.Calls.{FileCalls, made, not_made, make_io_error}
use stmanager.Files.Copy.{each_child, with_children}

module _ {os : Disk} (fs : FileCalls os) where
  abbrev pub reported : Text → Text → Option ℕ × os.State → Result (Unit {0}) × os.State
  reported action path (none, s) = (ok tt, s)
  reported action path (some errno, s) = (make_io_error os action path errno, s)

  unfoldable pub remove_path_recursive : ℕ → Text → Exec os.State (Unit {0})
  unfolding each_child is_directory_type
  remove_path_recursive zero path s = (looping, s)
  remove_path_recursive (suc depth) path s = elim (os.lstat s path) [
    | failed errno ↦
        if errno == enoent then (ok tt, s) else (make_io_error os (codes "lstat") path errno, s)
    | found t ↦
        let directory : Exec os.State (Unit {0}) =
          with_children fs path
            (each_child fs (λ name. remove_path_recursive depth (join_path path name)))
          >> (λ u. reported (codes "rmdir") path (fs.rmdir path u)) in
        if not (is_directory_type t)
        then reported (codes "unlink") path (fs.unlink path s)
        else directory s
  ]

  unfoldable pub create_temp_directory_under : Text → Text → Exec os.State Text
  create_temp_directory_under base_directory prefix =
      ensure_directory_tree_following_existing_symlinks os base_directory 493 >>= λ _ s.
      let template = join_path base_directory (prefix ++ codes "-XXXXXX") in
      let (p, s') = fs.mkdtemp template s in
      elim p [
        | made path ↦ (ok path, s')
        | not_made errno ↦ (make_io_error os (codes "mkdtemp") template errno, s')
      ]
