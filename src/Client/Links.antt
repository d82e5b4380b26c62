-- ===== src/Client/Links.antt =====
-- That a sync leaves no connection open, and that a push leaves the local data alone.
use stmanager.Prelude.{Text, true, not, ◌≡◌, refl}
use stmanager.Status.{Result, ok, Exec}
use stmanager.Json.{JsonLibrary}
use stmanager.TrustedDevices.Store.{TrustStore}
use stmanager.PathSafety.Disk.{Disk}
use stmanager.DataManager.{Archives, DataManager, is_valid, backup, restore}
use stmanager.Protocol.Messages.{SyncDirection, push, pull}
use stmanager.Client.Pair.{DeviceInfo, Transport, LocalSetup}
use stmanager.Client.Sync.{
  SyncOptions, authorize_remote, with_peer, send_archive, push_to_device, restore_root,
  restore_archive, pull_from_device, sync,
}
use stmanager.Client.Branches.{settle-holds, choice-holds, returns_status}

module _ (lib : JsonLibrary) (net : Transport) (store : TrustStore) (setup : LocalSetup) {os : Disk}
    (ar : Archives os) (manager : DataManager) (device_info : DeviceInfo) where
  -- The transport was disconnected last.
  abbrev pub Disconnected : net.Link → Type 0
  Disconnected l = (before : net.Link) × (l ≡ net.disconnect before)

  abbrev Closing : Result (Unit {0}) × (net.Link × store.State × os.State) → Type 0
  Closing x = returns_status x.0 ≡ true → Disconnected x.1.0

  send_archive-Closing :
      (archive : Text) (s : net.Link × store.State × os.State)
      → Closing (send_archive lib net store setup ar manager archive s)
  unfolding send_archive
  send_archive-Closing archive (l, t, d) =
      settle-holds Closing (net.send_stream archive l).0 _ _ (_, t, d) (λ o. cc) (λ w o. cc)
        (λ e f o. (_, refl)) (λ a e o. (_, refl))

  restore_archive-Closing :
      (options : SyncOptions) (archive : Text) (s : net.Link × store.State × os.State)
      → Closing (restore_archive lib net store setup ar manager options archive s)
  unfolding restore_archive
  restore_archive-Closing options archive (l, t, d) =
      settle-holds Closing (restore ar manager archive (restore_root manager options) d).0 _ _
        (l, t, _) (λ o. cc) (λ w o. cc) (λ e f o. (_, refl)) (λ a e o. (_, refl))

  module _ (l : net.Link) (t : store.State) (d : os.State)
      (connected : (net.connect device_info l).0 ≡ ok tt) (valid : is_valid manager ≡ true)
      (has_transport : setup.has_transport ≡ true) where
    with_peer-Closing :
        (direction : SyncDirection) (a b c e : Text)
        (rest : Exec (net.Link × store.State × os.State) (Unit {0}))
        → ((s : net.Link × store.State × os.State) → Closing (rest s))
        → Closing
            (with_peer lib net store setup ar manager a b c e device_info direction rest (l, t, d))
    unfolding with_peer
    with_peer-Closing direction a b c e rest closing =
        choice-holds Closing (not (is_valid manager)) _ _ (l, t, d) (λ n o. cc)
          (λ v.
            choice-holds Closing (not setup.has_transport) _ _ (l, t, d) (λ n o. cc)
              (λ h.
                settle-holds Closing (net.connect device_info l).0 _ _ (_, t, d) (λ o. cc)
                  (λ w o. cc) (λ f g o. cc)
                  (λ u c.
                    settle-holds Closing
                      (authorize_remote lib net store setup device_info direction
                        ((net.connect device_info l).1, t)).0
                      _ _ (_, _, d) (λ o. cc) (λ w o. cc) (λ f g o. (_, refl))
                      (λ u' g. closing _))))

    -- Once a sync in either direction has connected, a valid data manager given, it ends with the
    -- connection closed, whatever fails after that: unless an exception leaves it, the last call
    -- of the transport is disconnect.
    pub sync-Disconnected :
        (direction : SyncDirection) (options : SyncOptions)
        → returns_status
            (sync lib net store setup ar manager direction device_info options (l, t, d)).0
          ≡ true
        → Disconnected
            (sync lib net store setup ar manager direction device_info options (l, t, d)).1.0
    unfolding sync push_to_device pull_from_device
    sync-Disconnected push options = with_peer-Closing push _ _ _ _ _ (λ s.
        settle-holds Closing (backup ar manager options.git_mode_for_extensions s.2).0 _ _
          (s.0, s.1, _) (λ o. cc) (λ w o. cc) (λ e f o. (_, refl))
          (λ archive g. send_archive-Closing archive _))
    sync-Disconnected pull options = with_peer-Closing pull _ _ _ _ _ (λ s.
        settle-holds Closing (net.receive_stream s.0).0 _ _ (_, s.1, s.2) (λ o. cc) (λ w o. cc)
          (λ e f o. (_, refl)) (λ archive g. restore_archive-Closing options archive _))
