-- ===== src/DataManager/Locate.antt =====
-- src/locate.cpp: `locate_silly_tavern_paths`.
use stmanager.Prelude.{Text, Bool, true, false, codes, not, ◌++◌, if◌then◌else◌}
use stmanager.Status.{
  Result, ok, err, fail, Exec, throw, pure, ◌>>=◌, invalid_root, missing_extensions_dir,
  missing_data_dir,
}
use stmanager.PathSafety.Disk.{directory, Probe, found, Disk}
use stmanager.PathSafety.Paths.{join_path}
use stmanager.PathSafety.Ensure.{ensure_directory_tree}

pub record Located : Type 0 where
  pub root : Text
  pub extensions : Text
  pub data_directory : Text

abbrev is_directory_probe : Probe → Bool
is_directory_probe (found directory) = true
is_directory_probe _ = false

module _ (os : Disk) where
  abbrev pub is_directory : os.State → Text → Bool
  is_directory s path = is_directory_probe (os.stat s path)

  -- `auto-create failed`, with the message of the status.
  abbrev not_created : Result (Unit {0}) → Result (Unit {0})
  not_created (err e) = fail missing_extensions_dir (
      codes
        "Missing required directory: public/scripts/extensions/third-party; auto-create failed: "
      ++ e.message)
  not_created r = r

  -- The directory of the extensions, which is made if it is missing.
  unfoldable pub ensure_extensions : Text → Exec os.State (Unit {0})
  ensure_extensions path s =
      if not (is_directory s path)
      then (let (r, s') = ensure_directory_tree os path 493 s in (not_created r, s'))
      else (ok tt, s)

  unfoldable pub find_data : Text → Text → Exec os.State Located
  find_data root_path extensions_path s =
      if not (is_directory s (join_path root_path (codes "data")))
      then throw missing_data_dir (codes "Missing required directory: data") s
      else pure
          (record {
            root = root_path;
            extensions = extensions_path;
            data_directory = join_path root_path (codes "data");
          })
          s

  abbrev pub extensions_root : Text → Text
  extensions_root root_path = join_path root_path (codes "public/scripts/extensions")

  unfoldable pub locate_silly_tavern_paths : Text → Exec os.State Located
  unfolding ensure_extensions find_data
  locate_silly_tavern_paths root_path s =
      if not (is_directory s root_path)
      then throw invalid_root (codes "SillyTavern root does not exist or is not a directory") s
      else if not (is_directory s (extensions_root root_path))
      then throw missing_extensions_dir
          (codes "Missing required directory: public/scripts/extensions") s
      else (let path = join_path (extensions_root root_path) (codes "third-party") in
          (ensure_extensions path >>= λ _. find_data root_path path) s)
