-- ===== src/Archive/Targets.antt =====
-- src/archive_stream.cpp: `restore_from_staging_directory`, which replaces the data and the
-- extensions by those of the staging directory, with `rollback_restore_targets` and
-- `restore_git_manifest`, over the functions of src/fs_ops.cpp (`Tree`).
use stmanager.Prelude.{ℕ, Text, Bool, true, false, codes, not, ◌++◌, ◌&&◌, if◌then◌else◌}
use stmanager.Status.{
  Status, Result, ok, err, looping, threw, fail, Exec, pure, throw, lift, io_error,
  invalid_archive_entry,
}
use stmanager.PathSafety.Disk.{Disk}
use stmanager.PathSafety.Paths.{join_path}
use stmanager.Server.Requests.{settle}
use stmanager.Files.Calls.{FileCalls, path_exists, path_is_directory}
use stmanager.Files.Remove.{remove_path_recursive}
use stmanager.Files.Move.{move_or_copy_path}

-- What the restoration calls of src/fs_ops.cpp.
pub record Tree : Type 1 where
  pub State : Type 0
  pub exists : Text → State → Bool
  pub is_directory : Text → State → Bool
  pub move_or_copy : Text → Text → Exec State (Unit {0})
  pub remove : Text → Exec State (Unit {0})

-- Its functions.
abbrev pub file_tree : {os : Disk} → FileCalls os → ℕ → ℕ → Tree
file_tree {os} fs rounds depth = record {
  State = os.State;
  exists = path_exists os;
  is_directory = path_is_directory os;
  move_or_copy = move_or_copy_path fs rounds depth;
  remove = remove_path_recursive fs depth;
}

pub record RestoreTargetPaths : Type 0 where
  pub data_path : Text
  pub extensions_path : Text

unfoldable pub resolve_restore_target_paths : Text → RestoreTargetPaths
resolve_restore_target_paths destination_root = record {
  data_path = join_path destination_root (codes "data");
  extensions_path = join_path destination_root (codes "public/scripts/extensions/third-party");
}

abbrev pub git_manifest_path : Text
git_manifest_path = codes ".stmanager/extensions_git_manifest.json"

-- `capture_error`: the first error is kept, and the calls after it are made all the same.
abbrev pub first_error : Status → Result (Unit {0}) → Result (Unit {0})
first_error e (ok u) = err e
first_error e (err later) = err e
first_error e looping = looping
first_error e (threw what) = threw what

-- The paths of one restoration.
pub record Paths : Type 0 where
  pub data_path : Text
  pub extensions_path : Text
  pub backup_data_path : Text
  pub backup_extensions_path : Text

module _ (t : Tree) where
  abbrev pub captured : Exec t.State (Unit {0}) → Exec t.State (Unit {0}) → Exec t.State (Unit {0})
  captured call rest s =
      let (r, s') = call s in
      settle r (λ e u. let (r', u') = rest u in (first_error e r', u')) (λ _. rest) s'

  abbrev pub only_if : Bool → Exec t.State (Unit {0}) → Exec t.State (Unit {0})
  only_if b call = if b then call else pure tt

  abbrev pub take_back : Bool → Text → Text → Exec t.State (Unit {0})
  take_back had_existing backup_path path s =
      only_if (had_existing && t.exists backup_path s) (t.move_or_copy backup_path path) s

  unfoldable pub rollback_restore_targets :
      Paths → Bool → Bool → Bool → Bool → Exec t.State (Unit {0})
  rollback_restore_targets p had_data had_extensions installed_data installed_extensions =
      captured (only_if installed_data (t.remove p.data_path)) (
        captured (only_if installed_extensions (t.remove p.extensions_path)) (
          captured (take_back had_data p.backup_data_path p.data_path)
            (take_back had_extensions p.backup_extensions_path p.extensions_path)))

  unfoldable pub restore_git_manifest : Text → Text → Exec t.State (Unit {0})
  restore_git_manifest stage_root destination_root s =
      let stage_path = join_path stage_root git_manifest_path in
      let path = join_path destination_root git_manifest_path in
      if t.exists stage_path s && t.is_directory stage_path s
      then throw invalid_archive_entry (codes "Manifest archive entry must be a regular file") s
      else if t.exists stage_path s
      then (if t.exists path s
          then (let (r, s') = t.remove path s in
              settle r (λ e. lift (err e)) (λ _. t.move_or_copy stage_path path) s')
          else t.move_or_copy stage_path path s)
      else if t.exists path s
      then t.remove path s
      else (ok tt, s)

  -- A step after the first move failed: what was moved is taken back.
  unfoldable pub undone : Exec t.State (Unit {0}) → Status → Exec t.State (Unit {0})
  undone rollback status s =
      let (r, s') = rollback s in
      settle r
        (λ e. lift (fail io_error (status.message ++ (codes "; rollback failed: " ++ e.message))))
        (λ _. lift (err status)) s'

  module _ (stage_root destination_root : Text) (p : Paths) (had_data had_extensions : Bool) where
    unfoldable pub install_manifest : Exec t.State (Unit {0})
    unfolding restore_git_manifest undone rollback_restore_targets
    install_manifest s =
        let (r, s') = restore_git_manifest stage_root destination_root s in
        settle r (undone (rollback_restore_targets p had_data had_extensions true true))
          (λ _ u. (ok tt, u)) s'

    unfoldable pub install_extensions : Exec t.State (Unit {0})
    unfolding install_manifest undone rollback_restore_targets
    install_extensions s =
        let (r, s') =
          t.move_or_copy (join_path stage_root (codes "extensions")) p.extensions_path s in
        settle r (undone (rollback_restore_targets p had_data had_extensions true false))
          (λ _. install_manifest) s'

    unfoldable pub install_data : Exec t.State (Unit {0})
    unfolding install_extensions undone rollback_restore_targets
    install_data s =
        let (r, s') = t.move_or_copy (join_path stage_root (codes "data")) p.data_path s in
        settle r (undone (rollback_restore_targets p had_data had_extensions false false))
          (λ _. install_extensions) s'

    unfoldable pub set_extensions_aside : Exec t.State (Unit {0})
    unfolding install_data undone rollback_restore_targets
    set_extensions_aside s =
        if had_extensions
        then (let (r, s') = t.move_or_copy p.extensions_path p.backup_extensions_path s in
            settle r (undone (rollback_restore_targets p had_data had_extensions false false))
              (λ _. install_data) s')
        else install_data s

    unfoldable pub set_data_aside : Exec t.State (Unit {0})
    unfolding set_extensions_aside
    set_data_aside s =
        if had_data
        then (let (r, s') = t.move_or_copy p.data_path p.backup_data_path s in
            settle r (λ e. lift (err e)) (λ _. set_extensions_aside) s')
        else set_extensions_aside s

  abbrev pub paths_of : Text → Text → Paths
  unfolding resolve_restore_target_paths
  paths_of stage_root destination_root = record {
    data_path = (resolve_restore_target_paths destination_root).data_path;
    extensions_path = (resolve_restore_target_paths destination_root).extensions_path;
    backup_data_path = join_path stage_root (codes ".stmanager-restore-old-data");
    backup_extensions_path = join_path stage_root (codes ".stmanager-restore-old-extensions");
  }

  unfoldable pub restore_from_staging_directory : Text → Text → Exec t.State (Unit {0})
  unfolding set_data_aside
  restore_from_staging_directory stage_root destination_root s =
      if not (t.is_directory (join_path stage_root (codes "data")) s)
      then throw invalid_archive_entry (codes "Archive is missing required data directory") s
      else if not (t.is_directory (join_path stage_root (codes "extensions")) s)
      then throw invalid_archive_entry (codes "Archive is missing required extensions directory") s
      else (let p = paths_of stage_root destination_root in
          set_data_aside stage_root destination_root p (t.exists p.data_path s)
            (t.exists p.extensions_path s) s)
