-- ===== src/Archive/Places.antt =====
-- The paths that a restoration of src/archive_stream.cpp moves, and what it relies on there.
use stmanager.Prelude.{Text, Bool, true, false, codes, ◌≡◌, ◌≢◌, Option, none, some}
use stmanager.Status.{Status, ok, err}
use stmanager.PathSafety.Paths.{join_path}
use stmanager.Archive.Targets.{Tree, git_manifest_path, paths_of}

-- The paths that a restoration moves, removes or looks at.
pub data Place : Type 0 where
  old_data old_extensions backup_data backup_extensions : Place
  staged_data staged_extensions manifest staged_manifest : Place

abbrev pub path_of : Tree → Text → Text → Place → Text
path_of t stage_root destination_root old_data = (paths_of t stage_root destination_root).data_path
path_of t stage_root destination_root old_extensions =
    (paths_of t stage_root destination_root).extensions_path
path_of t stage_root destination_root backup_data =
    (paths_of t stage_root destination_root).backup_data_path
path_of t stage_root destination_root backup_extensions =
    (paths_of t stage_root destination_root).backup_extensions_path
path_of t stage_root destination_root staged_data = join_path stage_root (codes "data")
path_of t stage_root destination_root staged_extensions = join_path stage_root (codes "extensions")
path_of t stage_root destination_root manifest = join_path destination_root git_manifest_path
path_of t stage_root destination_root staged_manifest = join_path stage_root git_manifest_path

abbrev pub is_some : {A : Type 0} → Option A → Bool
is_some none = false
is_some (some a) = true

-- What the restoration relies on, at its own paths: `slot` is the file or the directory with all it
-- holds that stands at a path. A move that succeeds takes it from one free path to another, and
-- one that fails changes nothing, as a rename within one file system; a removal that succeeds
-- leaves nothing; and both leave the other paths alone.
pub record IsAtomic (t : Tree) (stage_root destination_root : Text) : Type 1 where
  pub Content : Type 0
  pub slot : t.State → Place → Option Content
  pub exists-slot :
      (p : Place) (s : t.State)
      → t.exists (path_of t stage_root destination_root p) s ≡ is_some (slot s p)
  pub is_directory-slot :
      (p : Place) (s : t.State)
      → t.is_directory (path_of t stage_root destination_root p) s ≡ true
      → is_some (slot s p) ≡ true
  pub move-ok :
      (p q : Place) (s : t.State)
      → p ≢ q
      → let (r, s') =
          t.move_or_copy
            (path_of t stage_root destination_root p)
            (path_of t stage_root destination_root q)
            s in
        r ≡ ok tt
        → (slot s q ≡ none)
          × (slot s' q ≡ slot s p)
          × (slot s' p ≡ none)
          × ((o : Place) → o ≢ p → o ≢ q → slot s' o ≡ slot s o)
  pub move-failed :
      (p q : Place) (s : t.State) (e : Status)
      → let (r, s') =
          t.move_or_copy
            (path_of t stage_root destination_root p)
            (path_of t stage_root destination_root q)
            s in
        r ≡ err e → (o : Place) → slot s' o ≡ slot s o
  pub remove-ok :
      (p : Place) (s : t.State)
      → let (r, s') = t.remove (path_of t stage_root destination_root p) s in
        r ≡ ok tt → (slot s' p ≡ none) × ((o : Place) → o ≢ p → slot s' o ≡ slot s o)
  pub remove-failed :
      (p : Place) (s : t.State) (e : Status)
      → let (r, s') = t.remove (path_of t stage_root destination_root p) s in
        r ≡ err e → (o : Place) → o ≢ p → slot s' o ≡ slot s o
