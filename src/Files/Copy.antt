-- ===== src/Files/Copy.antt =====
-- src/fs_ops.cpp: `copy_regular_file` and `copy_path_recursive`. `rounds` bounds the calls of each
-- loop around `read` and `write`, and `depth` how deep the directories lie.
use stmanager.Prelude.{
  ℕ, zero, suc, Text, true, false, codes, is_empty, drop, List, [], ◌∷◌, ◌++◌, if◌then◌else◌,
}
use stmanager.Status.{ok, looping, Exec, pure, throw, ◌>>◌, io_error, unsupported_archive_entry}
use stmanager.PathSafety.Disk.{FileType, found, failed, Disk}
use stmanager.PathSafety.Paths.{join_path}
use stmanager.PathSafety.Ensure.{ensure_directory_tree, ensure_parent_directories}
use stmanager.Files.Calls.{
  listed, not_listed, opened, not_opened, bytes_read, read_failed, bytes_written, write_failed,
  FileCalls, make_io_error, is_dot_name, path_exists,
}

module _ {os : Disk} (fs : FileCalls os) where
  abbrev pub close_both : ℕ → ℕ → os.State → os.State
  close_both source destination s = fs.close_fd destination (fs.close_fd source s)

  -- The inner loop: `write` until the bytes are written.
  unfoldable pub write_loop : ℕ → ℕ → Text → Text → Exec os.State (Unit {0})
  write_loop zero fd path bytes s = (looping, s)
  write_loop (suc rounds) fd path bytes s =
      if is_empty bytes
      then (ok tt, s)
      else (let (w, s') = fs.write_fd fd bytes s in
          elim w [
            | write_failed errno ↦ (make_io_error os (codes "write") path errno, s')
            | bytes_written n ↦ write_loop rounds fd path (drop n bytes) s'
          ])

  abbrev pub buffer_size : ℕ
  buffer_size = 65536

  unfoldable pub copy_loop : ℕ → ℕ → ℕ → Text → Text → Exec os.State (Unit {0})
  unfolding write_loop
  copy_loop zero source destination source_path path s = (looping, s)
  copy_loop (suc rounds) source destination source_path path s =
      let (r, s') = fs.read_fd source buffer_size s in
      elim r [
        | read_failed errno ↦ (make_io_error os (codes "read") source_path errno, s')
        | bytes_read bytes ↦
            if is_empty bytes
            then (ok tt, s')
            else (write_loop rounds destination path bytes
                  >> copy_loop rounds source destination source_path path)
                s'
      ]

  unfoldable pub copy_regular_file : ℕ → Text → Text → ℕ → Exec os.State (Unit {0})
  unfolding copy_loop
  copy_regular_file rounds source_path destination_path source_mode =
      ensure_parent_directories os destination_path 493 >> λ s.
      let (source, s1) = fs.open_read source_path s in
      elim source [
        | not_opened errno ↦ (make_io_error os (codes "open") source_path errno, s1)
        | opened source_fd ↦
            let (destination, s2) = fs.open_write_trunc destination_path source_mode s1 in
            elim destination [
              | not_opened errno ↦
                  (make_io_error os (codes "open") destination_path errno, fs.close_fd source_fd s2)
              | opened destination_fd ↦
                  let (r, s3) =
                    copy_loop rounds source_fd destination_fd source_path destination_path s2 in
                  (r, close_both source_fd destination_fd s3)
            ]
      ]

  -- The loop over the children, with the call for one of them.
  unfoldable pub each_child :
      (Text → Exec os.State (Unit {0})) → List Text → Exec os.State (Unit {0})
  each_child call [] = pure tt
  each_child call (name ∷ rest) = elim (is_dot_name name) [
    | true ↦ each_child call rest
    | false ↦ call name >> each_child call rest
  ]

  abbrev pub with_children :
      Text → (List Text → Exec os.State (Unit {0})) → Exec os.State (Unit {0})
  with_children path call s = elim (fs.list_directory s path) [
    | not_listed errno ↦ (make_io_error os (codes "opendir") path errno, s)
    | listed names ↦ call names s
  ]

  unfoldable pub copy_path_recursive_impl : ℕ → ℕ → Text → Text → Exec os.State (Unit {0})
  unfolding copy_regular_file each_child
  copy_path_recursive_impl rounds zero source_path destination_path s = (looping, s)
  copy_path_recursive_impl rounds (suc depth) source_path destination_path s =
      elim (os.lstat s source_path) [
        | failed errno ↦ (make_io_error os (codes "lstat") source_path errno, s)
        | found FileType.symlink ↦
            throw unsupported_archive_entry
              (codes "Symlink entries are not supported for recursive copy") s
        | found FileType.regular_file ↦
            copy_regular_file rounds source_path destination_path (fs.permissions s source_path) s
        | found FileType.directory ↦
            (ensure_directory_tree os destination_path (fs.permissions s source_path)
                >> with_children source_path (
                    each_child (λ name.
                      copy_path_recursive_impl rounds depth (join_path source_path name)
                        (join_path destination_path name))))
              s
        | found FileType.other_file ↦
            throw unsupported_archive_entry (codes "Unsupported file type for recursive copy") s
      ]

  unfoldable pub copy_path_recursive : ℕ → ℕ → Text → Text → Exec os.State (Unit {0})
  unfolding copy_path_recursive_impl
  copy_path_recursive rounds depth source_path destination_path s =
      if path_exists os destination_path s
      then throw io_error (codes "Destination path already exists: " ++ destination_path) s
      else copy_path_recursive_impl rounds depth source_path destination_path s
