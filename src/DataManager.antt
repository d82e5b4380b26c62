-- ===== src/DataManager.antt =====
-- src/data.cpp: the class DataManager. The code that writes and reads archives is a parameter
-- (`Archives`).
mod Locate
pub use Locate.{Located}
unfoldable pub use Locate.{is_directory, locate_silly_tavern_paths}
use stmanager.PathSafety.Disk.{Disk}
use stmanager.Prelude.{Text, Bool, true, false, codes, not, [], ◌++◌, if◌then◌else◌}
use stmanager.Status.{
  StatusCode, Status, status, Result, ok, err, looping, threw, fail, Exec, ok_code, io_error,
  invalid_root,
}

-- `Status::ok`.
abbrev pub is_ok_code : StatusCode → Bool
is_ok_code ok_code = true
is_ok_code _ = false

abbrev pub is_ok : Status → Bool
is_ok s = is_ok_code s.code

-- The archive code: what it makes of the disk, the bytes of an archive that it wrote, and the
-- statuses and exceptions that it ends with.
pub record Archives (os : Disk) : Type 0 where
  pub write_backup_archive : Text → Text → Bool → Exec os.State Text
  pub restore_backup_archive : Text → Text → Exec os.State (Unit {0})

pub record DataManager : Type 0 where
  pub root_path : Text
  pub extensions_path : Text
  pub data_path : Text
  pub manager_status : Status

abbrev ok_manager_status : Status
ok_manager_status = status ok_code []

-- `DataManager()`, `DataManager(root_path)` and `DataManager(status)`.
unfoldable pub default_data_manager : DataManager
default_data_manager = record {
  root_path = [];
  extensions_path = [];
  data_path = [];
  manager_status = ok_manager_status;
}

unfoldable pub unresolved_data_manager : Text → DataManager
unresolved_data_manager root_path = record {
  root_path = root_path;
  extensions_path = [];
  data_path = [];
  manager_status = status invalid_root (codes "Unresolved SillyTavern path");
}

unfoldable pub failed_data_manager : Status → DataManager
failed_data_manager s = record {
  root_path = [];
  extensions_path = [];
  data_path = [];
  manager_status = s;
}

unfoldable pub is_valid : DataManager → Bool
is_valid m = is_ok m.manager_status

abbrev pub last_status : DataManager → Status
last_status m = m.manager_status

-- A `catch` that turns what was thrown into a status of this stage.
abbrev caught_at {ℓ} : {A : Type ℓ} → Text → Result A → Result A
caught_at stage (ok a) = ok a
caught_at stage (err e) = err e
caught_at stage looping = looping
caught_at stage (threw what) = fail io_error (stage ++ what)

abbrev located_manager : Result Located → Result DataManager
located_manager (ok l) = ok (record {
  root_path = l.root;
  extensions_path = l.extensions;
  data_path = l.data_directory;
  manager_status = ok_manager_status;
})
located_manager (err e) = ok (failed_data_manager e)
located_manager looping = looping
located_manager (threw what) = threw what

unfoldable pub locate : (os : Disk) → Text → Exec os.State DataManager
unfolding failed_data_manager
locate os root_path s =
    let (r, s') = locate_silly_tavern_paths os root_path s in (located_manager r, s')

module _ {os : Disk} (ar : Archives os) where
  unfoldable pub backup : DataManager → Bool → Exec os.State Text
  unfolding is_valid
  backup m git_mode d =
      if not (is_valid m)
      then (err (last_status m), d)
      else (let (r, d') = ar.write_backup_archive m.data_path m.extensions_path git_mode d in
          (caught_at (codes "stage=data.backup.exception; ") r, d'))

  unfoldable pub restore : DataManager → Text → Text → Exec os.State (Unit {0})
  unfolding is_valid
  restore m archive destination_root d =
      if not (is_valid m)
      then (err (last_status m), d)
      else (let (r, d') = ar.restore_backup_archive archive destination_root d in
          (caught_at (codes "stage=data.restore.exception; ") r, d'))
