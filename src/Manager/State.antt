-- ===== src/Manager/State.antt =====
-- src/sync.cpp: the state of a Manager: `initialize_from_root`, `load_or_create_device_id` and
-- `ensure_initialized`.
use stmanager.Prelude.{
  Text, Bool, true, false, codes, is_empty, not, Option, none, some, [], ◌++◌, if◌then◌else◌,
}
use stmanager.Status.{
  Result, ok, err, looping, threw, fail, Exec, lift, ◌>>=◌, io_error, sync_protocol_error,
}
use stmanager.PathSafety.Disk.{Disk}
use stmanager.PathSafety.Paths.{join_path}
use stmanager.PathSafety.Ensure.{ensure_directory_tree}
use stmanager.TrustedDevices.Files.{WriteResult, not_opened, cut_short, complete}
use stmanager.DataManager.{DataManager, default_data_manager, is_valid, last_status, locate}

-- What the manager asks of the system: the first line of a file that opens, writing a file, the
-- process and the time as they are printed, and `current_device_name`.
pub record Host (os : Disk) : Type 0 where
  pub read_line : os.State → Text → Option Text
  pub write_file : os.State → Text → Text → WriteResult × os.State
  pub process_id : Text
  pub time : Text
  pub current_device_name : Exec os.State Text

pub record Manager : Type 0 where
  pub data_manager : DataManager
  pub state_dir : Text
  pub local_device_id : Text
  pub local_device_name : Text
  pub trusted_store_path : Text
  pub initialized : Bool

unfoldable pub new_manager : Manager
unfolding default_data_manager
new_manager = record {
  data_manager = default_data_manager;
  state_dir = [];
  local_device_id = [];
  local_device_name = [];
  trusted_store_path = [];
  initialized = false;
}

unfoldable pub ensure_initialized : Manager → Result (Unit {0})
unfolding is_valid
ensure_initialized m =
    if not m.initialized
    then fail sync_protocol_error
        (codes "Manager is not initialized. Call Manager::create_from_root first")
    else if not (is_valid m.data_manager)
    then err (last_status m.data_manager)
    else if is_empty m.local_device_id
    then fail sync_protocol_error (codes "local_device_id is empty")
    else if is_empty m.local_device_name
    then fail sync_protocol_error (codes "local_device_name is empty")
    else ok tt

module _ {os : Disk} (host : Host os) where
  unfoldable pub generate_device_id : Text
  generate_device_id = codes "device-" ++ (host.process_id ++ (codes "-" ++ host.time))

  abbrev pub id_written : Text → WriteResult → Result Text
  id_written device_id not_opened = fail io_error (codes "Failed opening device id file for write")
  id_written device_id cut_short = fail io_error (codes "Failed writing device id file")
  id_written device_id complete = ok device_id

  unfoldable pub create_device_id : Text → Exec os.State Text
  create_device_id device_id_path s =
      let id = generate_device_id in
      let (w, s') = host.write_file s device_id_path (id ++ codes "\n") in (id_written id w, s')

  abbrev pub line_or_new : Text → Option Text → Exec os.State Text
  line_or_new device_id_path none = create_device_id device_id_path
  line_or_new device_id_path (some line) =
      if is_empty line then create_device_id device_id_path else lift (ok line)

  unfoldable pub load_or_create_device_id : Text → Exec os.State Text
  unfolding create_device_id
  load_or_create_device_id device_id_path s =
      line_or_new device_id_path (host.read_line s device_id_path) s

  -- The name of the device, and its id where there is no name.
  abbrev pub name_or_id : Text → Result Text → Result Text
  name_or_id id (ok name) = ok (if is_empty name then id else name)
  name_or_id id (err e) = ok id
  name_or_id id looping = looping
  name_or_id id (threw what) = threw what

  abbrev pub local_name : Text → Exec os.State Text
  local_name id s = let (r, s') = host.current_device_name s in (name_or_id id r, s')

  unfoldable pub initialize_located : DataManager → Exec os.State Manager
  unfolding load_or_create_device_id
  initialize_located located_manager =
      let state_dir = join_path located_manager.root_path (codes ".stmanager") in
      ensure_directory_tree os state_dir 493 >>= λ _.
      load_or_create_device_id (join_path state_dir (codes "device_id")) >>= λ id.
      local_name id >>= λ name. lift (
        ok (record {
          data_manager = located_manager;
          state_dir = state_dir;
          local_device_id = id;
          local_device_name = name;
          trusted_store_path = join_path state_dir (codes "trusted_devices.json");
          initialized = true;
        }))

  -- The manager that a success assigns; on an error the manager stays as it was.
  unfoldable pub initialize_from_root : Text → Exec os.State Manager
  unfolding is_valid initialize_located
  initialize_from_root root_path = locate os root_path >>= λ located_manager.
      if not (is_valid located_manager)
      then lift (err (last_status located_manager))
      else initialize_located located_manager
