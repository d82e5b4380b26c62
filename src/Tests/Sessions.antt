-- ===== src/Tests/Sessions.antt =====
-- The theorems of the syncing client and of the manager at a client that pulls from a device.
use stmanager.Prelude.{
  ℕ, Text, suc, true, false, codes, text_eq, some, none, List, [], ◌∷◌, ◌≡◌, refl,
}
use stmanager.Prelude.Int.{pos}
use stmanager.Status.{ok, status, ok_code}
use stmanager.Json
use stmanager.Json.{JsonLibrary}
use stmanager.PathSafety.Disk.{Disk, directory, found}
use stmanager.PathSafety.Paths.{join_path, split_path}
use stmanager.PathSafety.Ensure.{
  ensure_directory_tree, ensure_directory_tree_impl, tree_loop, ensure_component,
}
use stmanager.TrustedDevices.Files.{complete}
use stmanager.TrustedDevices.Store.{TrustStore}
use stmanager.DataManager.{
  Archives, DataManager, is_valid, restore, locate, locate_silly_tavern_paths,
}
use stmanager.Server.Replies.{response_json}
use stmanager.Protocol.Messages.{pull, build_auth_request_message, parse_auth_response_message}
use stmanager.Client.Pair.{DeviceInfo, Transport, LocalSetup}
use stmanager.Client.Sync.{
  Discovery, SyncOptions, discover_devices, authorize_remote, authorize_trusted, with_peer,
  pull_from_device, restore_archive, sync,
}
use stmanager.Client.Branches.{returns_status}
use stmanager.Client.Pulls.{PullOutcome, pull_from_device-PullOutcome}
use stmanager.Client.Links.{Disconnected, sync-Disconnected}
use stmanager.Manager.State.{Host, Manager, ensure_initialized, initialize_from_root}
use stmanager.Manager.Targets.{PairSyncRequest, Targets, resolve_pair_target}
use stmanager.Manager.PairSync.{PairSyncOptions}
use stmanager.Manager.Chosen.{Chosen, resolve_pair_target-Chosen}
use stmanager.Manager.Ready.{initialize_from_root-ready}
use stmanager.Tests.Memory.{memory_json}

-- A transport that counts its calls, to a device that accepts.
abbrev pub line : Transport
line = record {
  Link = ℕ;
  connect = λ info l. (ok tt, suc l);
  disconnect = λ l. suc l;
  send_message = λ message l. (ok tt, suc l);
  receive_message = λ l. (ok [], suc l);
  send_stream = λ archive l. (ok tt, suc l);
  receive_stream = λ l. (ok (codes "tar"), suc l);
}

abbrev pub welcoming_json : JsonLibrary
welcoming_json = record memory_json {
  parse = λ t. some (response_json (codes "auth_response") true []);
  dump = λ j. some [];
}

-- A store that trusts every device.
abbrev pub trusting : TrustStore
trusting = record {
  State = List Text;
  load = λ s. (ok tt, s);
  save = λ s. (ok tt, s);
  is_trusted = λ s id. true;
  trust_device = λ id s. (ok tt, id ∷ s);
  untrust_device = λ id s. (ok tt, s);
}

-- A disk on which every path is a directory, and which lists the archives that were restored.
abbrev pub full_disk : Disk
full_disk = record {
  State = List Text;
  lstat = λ s path. found directory;
  stat = λ s path. found directory;
  mkdir = λ s path mode. (none, s);
  strerror = λ errno. [];
}

abbrev pub listing : Archives full_disk
listing = record {
  write_backup_archive = λ d e git s. (ok (codes "tar"), s);
  restore_backup_archive = λ archive root s. (ok tt, archive ∷ s);
}

abbrev good_manager : DataManager
good_manager = record {
  root_path = codes "/r";
  extensions_path = codes "/r/e";
  data_path = codes "/r/data";
  manager_status = status ok_code [];
}

abbrev puller : LocalSetup
puller = record {
  local_device_id = codes "a";
  local_device_name = codes "b";
  has_transport = true;
  has_discovery = true;
  has_trusted_store = true;
}

abbrev pub peer : DeviceInfo
peer = record { device_id = codes "s"; device_name = []; host = codes "h"; port = pos 80 }

abbrev pub plain : SyncOptions
plain = record { git_mode_for_extensions = false; destination_root_override = [] }

pull_from_device-PullOutcome_example :
    PullOutcome welcoming_json line trusting puller peer listing good_manager plain [] []
      (pull_from_device welcoming_json line trusting puller listing good_manager peer plain
        (0, [], [])).0
      (pull_from_device welcoming_json line trusting puller listing good_manager peer plain
        (0, [], [])).1.2
pull_from_device-PullOutcome_example =
    pull_from_device-PullOutcome welcoming_json line trusting puller peer listing good_manager plain
      0 [] []

-- The connection, the three messages, the end.
pull_run :
    sync welcoming_json line trusting puller listing good_manager pull peer plain (0, [], [])
    ≡ (ok tt, (5, [], codes "tar" ∷ []))
unfolding sync pull_from_device with_peer authorize_remote authorize_trusted restore_archive
    is_valid restore build_auth_request_message parse_auth_response_message response_json text_eq
    codes stmanager.Json.value_string stmanager.Json.find stmanager.Json.value_boolean
pull_run = refl

good_manager_valid : is_valid good_manager ≡ true
unfolding is_valid
good_manager_valid = refl

pull_returns :
    returns_status
      (sync welcoming_json line trusting puller listing good_manager pull peer plain (0, [], [])).0
    ≡ true
pull_returns = rw pull_run refl

sync-Disconnected_example :
    Disconnected welcoming_json line trusting puller listing good_manager peer
      (sync welcoming_json line trusting puller listing good_manager pull peer plain
        (0, [], [])).1.0
sync-Disconnected_example =
    sync-Disconnected welcoming_json line trusting puller listing good_manager peer 0 [] [] refl
      good_manager_valid refl pull plain pull_returns

abbrev system : Host full_disk
system = record {
  read_line = λ s path. some (codes "device-1-2");
  write_file = λ s path contents. (complete, s);
  process_id = codes "1";
  time = codes "2";
  current_device_name = λ s. (ok [], s);
}

abbrev pub ready_manager : Manager
ready_manager = record {
  data_manager = record {
    root_path = codes "/r";
    extensions_path = codes "/r/public/scripts/extensions/third-party";
    data_path = codes "/r/data";
    manager_status = status ok_code [];
  };
  state_dir = codes "/r/.stmanager";
  local_device_id = codes "device-1-2";
  local_device_name = codes "device-1-2";
  trusted_store_path = codes "/r/.stmanager/trusted_devices.json";
  initialized = true;
}

initialize_run : (initialize_from_root system (codes "/r") []).0 ≡ ok ready_manager
unfolding initialize_from_root locate locate_silly_tavern_paths join_path ensure_directory_tree
    ensure_directory_tree_impl tree_loop split_path ensure_component is_valid codes
initialize_run = refl

initialize_from_root-ready_example : ensure_initialized ready_manager ≡ ok tt
initialize_from_root-ready_example =
    initialize_from_root-ready system (codes "/r") [] ready_manager initialize_run

abbrev small_network : Discovery
small_network = record {
  Browser = ℕ;
  start_discovery = λ b. (ok tt, b);
  list_devices = λ b. (ok (peer ∷ []), b);
}

abbrev by_port : PairSyncRequest
by_port = record { device_id = []; host = codes "h"; port = pos 81 }

abbrev selected : DeviceInfo
selected = record { device_id = codes "s"; device_name = []; host = codes "h"; port = pos 81 }

abbrev selected_targets : Targets
selected_targets = record { candidates = selected ∷ []; auto_selected = selected }

resolve_run : (resolve_pair_target ready_manager small_network by_port 0).0 ≡ ok selected_targets
unfolding resolve_pair_target ensure_initialized text_eq codes discover_devices
resolve_run = refl

resolve_pair_target-Chosen_example : Chosen by_port selected_targets
resolve_pair_target-Chosen_example =
    resolve_pair_target-Chosen ready_manager small_network by_port 0 selected_targets resolve_run

abbrev pair_options : PairSyncOptions
pair_options = record {
  pairing_options = record { pairing_code = codes "7"; remember_device = true };
  sync_options = plain;
  device_name = [];
}
