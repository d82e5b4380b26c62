-- ===== src/Manager/PairSync.antt =====
-- src/sync.cpp: `Manager::pair_sync`.
use stmanager.Prelude.{
  Text, Bool, true, false, codes, is_empty, text_eq, not, ◌&&◌, ◌||◌, if◌then◌else◌,
}
use stmanager.Prelude.Int.{is_positive}
use stmanager.Status.{ok, Exec, lift, ◌>>=◌, sync_protocol_error}
use stmanager.Json.{JsonLibrary}
use stmanager.PathSafety.Disk.{Disk}
use stmanager.TrustedDevices.Store.{TrustStore}
use stmanager.DataManager.{Archives}
use stmanager.Client.Pair.{
  DeviceInfo, PairingOptions, Transport, LocalSetup, new_sync_manager, with_stage,
  make_staged_error, pair_device,
}
use stmanager.Client.Sync.{SyncOptions, peer_step, keep_link, pull_from_device}
use stmanager.Manager.State.{Manager, ensure_initialized}
use stmanager.Manager.Targets.{staged}

pub record PairSyncOptions : Type 0 where
  pub pairing_options : PairingOptions
  pub sync_options : SyncOptions
  pub device_name : Text

pub record PairSyncResult : Type 0 where
  pub selected_device : DeviceInfo
  pub paired_this_time : Bool

unfoldable pub is_connectable_host : Text → Bool
is_connectable_host host = not (is_empty host) && not (text_eq host (codes "0.0.0.0"))

module _ (lib : JsonLibrary) (net : Transport) (store : TrustStore) {os : Disk} (ar : Archives os)
    (m : Manager) (options : PairSyncOptions) where
  abbrev pub effective_name : Text
  effective_name = if is_empty options.device_name then m.local_device_name else options.device_name

  abbrev pub sync_setup : LocalSetup
  unfolding new_sync_manager
  sync_setup = new_sync_manager m.local_device_id effective_name true true true

  abbrev pub paired : DeviceInfo → Exec (net.Link × store.State × os.State) (Unit {0})
  paired device_info (l, t, d) =
      let (r, s) =
        pair_device lib net store sync_setup device_info options.pairing_options (l, t) in
      (r, (s.0, s.1, d))

  abbrev pub store_loaded : Exec (net.Link × store.State × os.State) (Unit {0})
  store_loaded (l, t, d) = let (r, t') = store.load t in (r, (l, t', d))

  unfoldable pub pull_step :
      DeviceInfo → Bool → Exec (net.Link × store.State × os.State) PairSyncResult
  unfolding with_stage
  pull_step device_info paired_this_time =
      peer_step lib net store sync_setup ar m.data_manager (codes "manager.pair_sync.pull")
        (keep_link lib net store sync_setup ar m.data_manager)
        (pull_from_device lib net store sync_setup ar m.data_manager device_info
          options.sync_options)
        (λ _ s.
          (ok (record { selected_device = device_info; paired_this_time = paired_this_time }), s))

  -- Pairing first, if the store does not trust the device.
  unfoldable pub pair_and_pull :
      DeviceInfo → Exec (net.Link × store.State × os.State) PairSyncResult
  unfolding pull_step with_stage
  pair_and_pull device_info s =
      if not (store.is_trusted s.1 device_info.device_id)
      then peer_step lib net store sync_setup ar m.data_manager (codes "manager.pair_sync.pair")
          (keep_link lib net store sync_setup ar m.data_manager) (paired device_info)
          (λ _. pull_step device_info true) s
      else pull_step device_info false s

  unfoldable pub pair_sync : DeviceInfo → Exec (net.Link × store.State × os.State) PairSyncResult
  unfolding pair_and_pull is_connectable_host make_staged_error with_stage
  pair_sync device_info =
      lift (staged (codes "manager.pair_sync.init") (ensure_initialized m)) >>= λ _.
      if is_empty device_info.device_id
      then lift (
          make_staged_error sync_protocol_error (codes "manager.pair_sync.args.device_id")
            (codes "device_id cannot be empty"))
      else if not (is_connectable_host device_info.host) || not (is_positive device_info.port)
      then lift (
          make_staged_error sync_protocol_error (codes "manager.pair_sync.args.endpoint")
            (codes "remote device host/port is not connectable"))
      else peer_step lib net store sync_setup ar m.data_manager
          (codes "manager.pair_sync.trusted_store.load")
          (keep_link lib net store sync_setup ar m.data_manager) store_loaded
          (λ _. pair_and_pull device_info)
