-- ===== src/PathSafety/Ensure.antt =====
-- src/path_safety.cpp: the walks that make the directories of a path.
use stmanager.Prelude.{
  ℕ, Text, Bool, true, false, codes, is_empty, Option, none, some, List, [], ◌∷◌, ◌++◌, ◌==◌, ◌&&◌,
  not, if◌then◌else◌,
}
use stmanager.Status.{
  Result, ok, fail, Exec, pure, throw, lift, ◌>>◌, io_error, invalid_archive_entry,
}
use stmanager.PathSafety.Paths.{
  slash, split_path, join_path, validate_archive_relative_path, parent_directory,
}
use stmanager.PathSafety.Disk.{FileType, found, failed, Disk, enoent}

unfoldable pub is_directory_type : FileType → Bool
is_directory_type FileType.directory = true
is_directory_type _ = false

unfoldable pub is_symlink_type : FileType → Bool
is_symlink_type FileType.symlink = true
is_symlink_type _ = false

abbrev component_missing : Result (Unit {0})
component_missing = fail io_error (codes "Directory path component does not exist")

abbrev not_a_directory : Result (Unit {0})
not_a_directory = fail invalid_archive_entry (codes "Destination path component is not a directory")

module _ (os : Disk) where
  unfoldable pub validate_no_symlink_or_nondir : Text → os.State → Result (Unit {0})
  unfolding is_directory_type is_symlink_type
  validate_no_symlink_or_nondir path s = elim (os.lstat s path) [
    | failed _ ↦ component_missing
    | found t ↦
        if is_symlink_type t
        then fail invalid_archive_entry (codes "Refusing to traverse symlink in destination path")
        else if is_directory_type t
        then ok tt
        else not_a_directory
  ]

  unfoldable pub validate_followed_directory : Text → os.State → Result (Unit {0})
  unfolding is_directory_type
  validate_followed_directory path s = elim (os.stat s path) [
    | failed _ ↦ component_missing
    | found t ↦ if is_directory_type t then ok tt else not_a_directory
  ]

  -- The call of `path_mkdir` with the report of its failure.
  unfoldable pub create_directory : Text → ℕ → Exec os.State (Unit {0})
  create_directory path mode s =
      let (error, s') = os.mkdir s path mode in
      elim error [
        | none ↦ (ok tt, s')
        | some errno ↦ (
          fail io_error (
              codes "Failed to create directory: "
              ++ path
              ++ codes ", reason: "
              ++ os.strerror errno),
          s',
        )
      ]

  -- The body of both loops, for one component of the path.
  unfoldable pub ensure_component : Bool → Text → ℕ → Exec os.State (Unit {0})
  unfolding validate_no_symlink_or_nondir validate_followed_directory create_directory
  ensure_component allow_symlinks path mode s = elim (os.lstat s path) [
    | failed _ ↦ create_directory path mode s
    | found _ ↦
        if allow_symlinks
        then (validate_followed_directory path s, s)
        else (validate_no_symlink_or_nondir path s, s)
  ]

  unfoldable pub tree_loop : Bool → ℕ → Text → List Text → Exec os.State (Unit {0})
  tree_loop allow_symlinks mode current [] = pure tt
  tree_loop allow_symlinks mode current (part ∷ rest) = elim (is_empty part) [
    | true ↦ tree_loop allow_symlinks mode current rest
    | false ↦
        ensure_component allow_symlinks (join_path current part) mode
        >> tree_loop allow_symlinks mode (join_path current part) rest
  ]

  unfoldable pub ensure_directory_tree_impl : Text → ℕ → Bool → Exec os.State (Unit {0})
  ensure_directory_tree_impl [] mode allow_symlinks =
      throw io_error (codes "Directory path is empty")
  ensure_directory_tree_impl (first ∷ rest) mode allow_symlinks =
      tree_loop allow_symlinks mode (if first == b'/' then slash else [])
        (split_path (first ∷ rest))

  -- The loop over the parts of an archive path; without `include_leaf` it breaks at the last.
  unfoldable pub entry_loop : Bool → ℕ → Text → List Text → Exec os.State (Unit {0})
  entry_loop include_leaf mode current [] = pure tt
  entry_loop include_leaf mode current (part ∷ rest) = elim (is_empty part) [
    | true ↦ entry_loop include_leaf mode current rest
    | false ↦ elim (is_empty rest && not include_leaf) [
      | true ↦ pure tt
      | false ↦
          ensure_component false (join_path current part) mode
          >> entry_loop include_leaf mode (join_path current part) rest
    ]
  ]

  unfoldable pub ensure_archive_entry_directory_impl :
      Text → Text → ℕ → Bool → Exec os.State (Unit {0})
  ensure_archive_entry_directory_impl destination_root archive_path mode include_leaf =
      lift (validate_archive_relative_path archive_path)
      >> entry_loop include_leaf mode destination_root (split_path archive_path)

  unfoldable pub ensure_directory_tree : Text → ℕ → Exec os.State (Unit {0})
  ensure_directory_tree path mode = ensure_directory_tree_impl path mode false

  unfoldable pub ensure_directory_tree_following_existing_symlinks :
      Text → ℕ → Exec os.State (Unit {0})
  ensure_directory_tree_following_existing_symlinks path mode =
      ensure_directory_tree_impl path mode true

  unfoldable pub ensure_archive_entry_directory : Text → Text → ℕ → Exec os.State (Unit {0})
  ensure_archive_entry_directory destination_root archive_path mode =
      ensure_archive_entry_directory_impl destination_root archive_path mode true

  unfoldable pub ensure_archive_entry_parent_directories :
      Text → Text → ℕ → Exec os.State (Unit {0})
  ensure_archive_entry_parent_directories destination_root archive_path mode =
      ensure_archive_entry_directory_impl destination_root archive_path mode false

  unfoldable pub reject_existing_symlink : Text → os.State → Result (Unit {0})
  unfolding is_symlink_type
  reject_existing_symlink path s = elim (os.lstat s path) [
    | failed errno ↦
        if errno == enoent
        then ok tt
        else fail io_error (codes "Failed to inspect destination path: " ++ os.strerror errno)
    | found t ↦
        if is_symlink_type t
        then fail invalid_archive_entry (codes "Refusing to overwrite symlink in destination path")
        else ok tt
  ]

  -- The directory that both `ensure_parent_directories` functions make, if the path names one.
  abbrev pub with_parent :
      Option Text → (Text → Exec os.State (Unit {0})) → Exec os.State (Unit {0})
  with_parent none make = pure tt
  with_parent (some []) make = pure tt
  with_parent (some (value ∷ rest)) make = make (value ∷ rest)

  unfoldable pub ensure_parent_directories : Text → ℕ → Exec os.State (Unit {0})
  ensure_parent_directories file_path mode =
      with_parent (parent_directory file_path) (λ parent. ensure_directory_tree parent mode)

  unfoldable pub ensure_parent_directories_following_existing_symlinks :
      Text → ℕ → Exec os.State (Unit {0})
  ensure_parent_directories_following_existing_symlinks file_path mode =
      with_parent (parent_directory file_path)
        (λ parent. ensure_directory_tree_following_existing_symlinks parent mode)
