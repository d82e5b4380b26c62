-- ===== src/Client/Sync.antt =====
-- src/sync.cpp: the other methods of SyncManager: `authorize_remote`, `push_to_device`,
-- `pull_from_device`, `sync` and `discover_devices`. An archive in a std::stringstream is its bytes.
use stmanager.Prelude.{Text, Bool, codes, is_empty, contains_text, List, ◌++◌, not, if◌then◌else◌}
use stmanager.Status.{
  Result, ok, err, Exec, lift, ◌>>=◌, discovery_error, sync_protocol_error, unauthorized,
}
use stmanager.Json.{JsonLibrary}
use stmanager.TrustedDevices.Store.{TrustStore}
use stmanager.PathSafety.Disk.{Disk}
use stmanager.DataManager.{Archives, DataManager, is_valid, last_status, backup, restore}
use stmanager.Server.Requests.{settle}
use stmanager.Protocol.Messages.{
  SyncDirection, push, pull, build_auth_request_message, parse_auth_response_message,
}
use stmanager.Client.Pair.{
  DeviceInfo, Transport, LocalSetup, is_configured, with_stage, make_staged_error, link_step,
  store_step, stay,
}

pub record SyncOptions : Type 0 where
  pub git_mode_for_extensions : Bool
  pub destination_root_override : Text

-- IDeviceDiscovery, as far as the manager calls it.
pub record Discovery : Type 1 where
  pub Browser : Type 0
  pub start_discovery : Exec Browser (Unit {0})
  pub list_devices : Exec Browser (List DeviceInfo)

-- The error that the user sees when the other device refuses.
unfoldable pub rejection_message : Text → Text
rejection_message response_error =
    let error =
      if is_empty response_error
      then codes "Remote authorization was rejected"
      else response_error in
    if contains_text (codes "server_build=") error
    then error
    else codes "remote_server_context=missing; hint=remote serve may be an old build; " ++ error

abbrev pub restore_root : DataManager → SyncOptions → Text
restore_root manager options =
    if is_empty options.destination_root_override
    then manager.root_path
    else options.destination_root_override

module _ (lib : JsonLibrary) (net : Transport) (store : TrustStore) (setup : LocalSetup) where
  unfoldable pub authorize_trusted :
      DeviceInfo → SyncDirection → Exec (net.Link × store.State) (Unit {0})
  unfolding with_stage make_staged_error rejection_message
  authorize_trusted device_info direction =
      lift (build_auth_request_message lib setup.local_device_id setup.local_device_name direction)
      >>= λ auth_request_message.
          link_step lib net store setup (codes "auth.protocol.send_request")
            (stay lib net store setup) (net.send_message auth_request_message)
            (λ _.
              link_step lib net store setup (codes "auth.protocol.receive_response")
                (stay lib net store setup) net.receive_message
                (λ auth_response_message.
                  link_step lib net store setup (codes "auth.protocol.parse_response")
                    (stay lib net store setup)
                    (lift (parse_auth_response_message lib auth_response_message))
                    (λ answer.
                      if not answer.0
                      then lift (
                          make_staged_error unauthorized (codes "auth.remote.reject")
                            (rejection_message answer.1))
                      else lift (ok tt))))

  unfoldable pub authorize_remote :
      DeviceInfo → SyncDirection → Exec (net.Link × store.State) (Unit {0})
  unfolding authorize_trusted with_stage make_staged_error
  authorize_remote device_info direction =
      if is_configured setup
      then store_step lib net store setup (codes "auth.trusted_store.load") store.load (λ s.
        if not (store.is_trusted s.1 device_info.device_id)
        then (
          make_staged_error unauthorized (codes "auth.trusted_store.verify")
              (codes "Device is not trusted. Pairing is required before sync"),
          s,
        )
        else authorize_trusted device_info direction s)
      else lift (
          make_staged_error sync_protocol_error (codes "auth.init")
            (codes "Transport or trusted device store is not configured"))

  module _ {os : Disk} (ar : Archives os) (manager : DataManager) where
    abbrev pub Peer : Type 0
    Peer = net.Link × store.State × os.State

    abbrev pub on_link : {A : Type 0} → Exec net.Link A → Exec Peer A
    on_link m (l, t, d) = let (r, l') = m l in (r, (l', t, d))

    abbrev pub on_disk : {A : Type 0} → Exec os.State A → Exec Peer A
    on_disk m (l, t, d) = let (r, d') = m d in (r, (l, t, d'))

    abbrev pub authorized : DeviceInfo → SyncDirection → Exec Peer (Unit {0})
    authorized device_info direction (l, t, d) =
        let (r, s) = authorize_remote device_info direction (l, t) in (r, (s.0, s.1, d))

    abbrev pub keep_link : Peer → Peer
    keep_link s = s

    abbrev pub close_link : Peer → Peer
    close_link (l, t, d) = (net.disconnect l, t, d)

    -- A call; on an error `cleanup` is run, and the error gets its stage.
    abbrev pub peer_step :
        {A B : Type 0} → Text → (Peer → Peer) → Exec Peer A → (A → Exec Peer B) → Exec Peer B
    peer_step stage cleanup call rest s =
        let (r, s') = call s in settle r (λ e u. (err (with_stage stage e), cleanup u)) rest s'

    -- What both directions begin with: the checks, the connection and the authorisation.
    unfoldable pub with_peer :
        Text
        → Text
        → Text
        → Text
        → DeviceInfo
        → SyncDirection
        → Exec Peer (Unit {0})
        → Exec Peer (Unit {0})
    unfolding is_valid authorize_remote with_stage make_staged_error
    with_peer manager_stage transport_stage connect_stage auth_stage device_info direction rest =
        if not (is_valid manager)
        then lift (err (with_stage manager_stage (last_status manager)))
        else if not setup.has_transport
        then lift (
            make_staged_error sync_protocol_error transport_stage
              (codes "Transport is not configured"))
        else peer_step connect_stage keep_link (on_link (net.connect device_info))
            (λ _. peer_step auth_stage close_link (authorized device_info direction) (λ _. rest))

    unfoldable pub send_archive : Text → Exec Peer (Unit {0})
    unfolding with_stage
    send_archive archive =
        peer_step (codes "push.stream.send") close_link (on_link (net.send_stream archive))
          (λ _ s. (ok tt, close_link s))

    unfoldable pub push_to_device : DeviceInfo → SyncOptions → Exec Peer (Unit {0})
    unfolding with_peer send_archive with_stage
    push_to_device device_info options =
        with_peer (codes "push.data_manager") (codes "push.transport")
          (codes "push.transport.connect") (codes "push.auth") device_info push
          (peer_step (codes "push.backup.create") close_link
            (on_disk (backup ar manager options.git_mode_for_extensions)) send_archive)

    unfoldable pub restore_archive : SyncOptions → Text → Exec Peer (Unit {0})
    unfolding with_stage
    restore_archive options archive =
        peer_step (codes "pull.restore.apply") close_link
          (on_disk (restore ar manager archive (restore_root manager options)))
          (λ _ s. (ok tt, close_link s))

    unfoldable pub pull_from_device : DeviceInfo → SyncOptions → Exec Peer (Unit {0})
    unfolding with_peer restore_archive with_stage
    pull_from_device device_info options =
        with_peer (codes "pull.data_manager") (codes "pull.transport")
          (codes "pull.transport.connect") (codes "pull.auth") device_info pull
          (peer_step (codes "pull.stream.receive") close_link (on_link net.receive_stream)
            (restore_archive options))

    unfoldable pub sync : SyncDirection → DeviceInfo → SyncOptions → Exec Peer (Unit {0})
    unfolding push_to_device pull_from_device
    sync push device_info options = push_to_device device_info options
    sync pull device_info options = pull_from_device device_info options

module _ (setup : LocalSetup) (found : Discovery) where
  abbrev staged_result : {A : Type 0} → Text → Result A → Result A
  staged_result stage (err e) = err (with_stage stage e)
  staged_result stage r = r

  unfoldable pub discover_devices : Exec found.Browser (List DeviceInfo)
  unfolding with_stage make_staged_error
  discover_devices b =
      if not setup.has_discovery
      then (
        make_staged_error discovery_error (codes "discover.config")
            (codes "Device discovery is not configured"),
        b,
      )
      else (let (r, b') = found.start_discovery b in
          settle r (λ e u. (err (with_stage (codes "discover.start") e), u))
            (λ _ u.
              let (l, u') = found.list_devices u in (staged_result (codes "discover.list") l, u'))
            b')
