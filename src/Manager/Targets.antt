-- ===== src/Manager/Targets.antt =====
-- src/sync.cpp: `Manager::resolve_pair_target`, over what discovery finds.
use stmanager.Prelude.{
  Text, Bool, codes, is_empty, text_eq, not, List, [], ◌∷◌, ◌&&◌, if◌then◌else◌,
}
use stmanager.Prelude.Int.{ℤ, pos, is_positive}
use stmanager.Status.{
  Result, ok, err, looping, threw, fail, Exec, lift, ◌>>=◌, sync_protocol_error, discovery_error,
}
use stmanager.Client.Pair.{DeviceInfo, new_sync_manager, with_stage}
use stmanager.Client.Sync.{Discovery, discover_devices}
use stmanager.Manager.State.{Manager, ensure_initialized}

pub record PairSyncRequest : Type 0 where
  pub device_id : Text
  pub host : Text
  pub port : ℤ

-- `*candidates` and `*auto_selected`.
pub record Targets : Type 0 where
  pub candidates : List DeviceInfo
  pub auto_selected : DeviceInfo

abbrev pub sync_port_default : ℤ
sync_port_default = pos 38591

abbrev pub staged {ℓ} : {A : Type ℓ} → Text → Result A → Result A
staged stage (err e) = err (with_stage stage e)
staged stage (ok a) = ok a
staged stage looping = looping
staged stage (threw what) = threw what

abbrev pub port_or : ℤ → ℤ → ℤ
port_or port other = if is_positive port then port else other

-- A request with an id and a host needs no discovery.
unfoldable pub given_target : PairSyncRequest → Targets
given_target request =
    let selected_device : DeviceInfo = record {
      device_id = request.device_id;
      device_name = request.device_id;
      host = request.host;
      port = port_or request.port sync_port_default;
    } in
    record { candidates = selected_device ∷ []; auto_selected = selected_device }

-- The loop without an id: every device on the host, with the port of the request.
unfoldable pub host_candidates : PairSyncRequest → List DeviceInfo → List DeviceInfo
host_candidates request [] = []
host_candidates request (device ∷ rest) =
    if not (is_empty request.host) && not (text_eq request.host device.host)
    then host_candidates request rest
    else record device { port = port_or request.port device.port } ∷ host_candidates request rest

abbrev pub front_selected : List DeviceInfo → Result Targets
front_selected [] = fail discovery_error (codes "No discovered device matched pair request")
front_selected (device ∷ rest) = ok (record { candidates = device ∷ rest; auto_selected = device })

unfoldable pub completed_device : PairSyncRequest → DeviceInfo → DeviceInfo
completed_device request device = record device {
  host = if not (is_empty request.host) then request.host else device.host;
  port = port_or (port_or request.port device.port) sync_port_default;
}

-- The loop with an id: the first device of this id.
unfoldable pub device_of_id : PairSyncRequest → List DeviceInfo → Result Targets
unfolding completed_device
device_of_id request [] =
    fail discovery_error (codes "Device not found via discovery. Set --host/--port explicitly.")
device_of_id request (device ∷ rest) =
    if not (text_eq device.device_id request.device_id)
    then device_of_id request rest
    else ok (record {
      candidates = completed_device request device ∷ [];
      auto_selected = completed_device request device;
    })

unfoldable pub select_target : PairSyncRequest → List DeviceInfo → Result Targets
unfolding host_candidates device_of_id
select_target request discovered =
    if is_empty request.device_id
    then front_selected (host_candidates request discovered)
    else device_of_id request discovered

module _ (m : Manager) (found : Discovery) where
  unfoldable pub manager_discover_devices : Exec found.Browser (List DeviceInfo)
  unfolding new_sync_manager
  manager_discover_devices b =
      (lift (staged (codes "manager.discover.init") (ensure_initialized m)) >>= λ _ b.
      let (r, b') =
        discover_devices
          (new_sync_manager m.local_device_id m.local_device_name Bool.true Bool.true Bool.true)
          found b in
      (staged (codes "manager.discover.sync") r, b'))
        b

  unfoldable pub resolve_discovered : PairSyncRequest → Exec found.Browser Targets
  unfolding select_target manager_discover_devices
  resolve_discovered request b =
      let (r, b') = manager_discover_devices b in
      (lift (staged (codes "manager.resolve_pair_target.discover") r) >>= λ discovered.
      lift (select_target request discovered))
        b'

  unfoldable pub resolve_pair_target : PairSyncRequest → Exec found.Browser Targets
  unfolding given_target resolve_discovered
  resolve_pair_target request =
      lift (staged (codes "manager.resolve_pair_target.init") (ensure_initialized m)) >>= λ _.
      if is_empty request.host && is_positive request.port
      then lift (fail sync_protocol_error (codes "--host is required when --port is provided"))
      else if not (is_empty request.device_id) && not (is_empty request.host)
      then lift (ok (given_target request))
      else resolve_discovered request
