-- ===== src/Manager/Restored.antt =====
-- When `pair_sync` changes the local data.
use stmanager.Prelude.{Text, true, false, is_empty, ◌≡◌, ◌≢◌}
use stmanager.Prelude.Int.{is_positive}
use stmanager.Status.{Result, ok}
use stmanager.Json.{JsonLibrary}
use stmanager.PathSafety.Disk.{Disk}
use stmanager.TrustedDevices.Store.{TrustStore}
use stmanager.DataManager.{Archives, restore}
use stmanager.Client.Pair.{DeviceInfo, Transport}
use stmanager.Client.Sync.{restore_root}
use stmanager.Client.Pulls.{MayPull}
use stmanager.Manager.State.{Manager, ensure_initialized}
use stmanager.Manager.PairSync.{PairSyncOptions, PairSyncResult, is_connectable_host, sync_setup}

module _ (lib : JsonLibrary) (net : Transport) (store : TrustStore) {os : Disk} (ar : Archives os)
    (m : Manager) (options : PairSyncOptions) (device_info : DeviceInfo) where
  -- The device can be reached: it has an id, a host to connect to, and a port.
  pub record Reachable : Type 0 where
    pub has_id : is_empty device_info.device_id ≡ false
    pub has_host : is_connectable_host device_info.host ≡ true
    pub has_port : is_positive device_info.port ≡ true

  -- What it has made of the local data: nothing, and then it does not report success, or a
  -- restoration of an archive that was received, by a ready manager, from a device that can be
  -- reached and that the store trusts, and then it reports success only if that did.
  pub data PairSyncOutcome (d : os.State) (r : Result PairSyncResult) : os.State → Type 0 where
    unchanged : ((result : PairSyncResult) → r ≢ ok result) → PairSyncOutcome d r d
    synced :
        ensure_initialized m ≡ ok tt
        → Reachable
        → (t : store.State)
        → MayPull lib net store (sync_setup lib net store ar m options) device_info t
        → (link : net.Link) (archive : Text) → (net.receive_stream link).0 ≡ ok archive
        → ((result : PairSyncResult)
            → r ≡ ok result
            → (restore ar m.data_manager archive
                (restore_root m.data_manager options.sync_options)
                d).0
              ≡ ok tt)
        → PairSyncOutcome d r
            (restore ar m.data_manager archive
              (restore_root m.data_manager options.sync_options)
              d).1

  module _ (ready : ensure_initialized m ≡ ok tt) (reachable : Reachable) (d : os.State) where
    abbrev Synced : Result PairSyncResult × (net.Link × store.State × os.State) → Type 0
    Synced x = PairSyncOutcome d x.0 x.1.2
