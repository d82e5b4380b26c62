-- ===== src/Client/Pair.antt =====
-- src/sync.cpp: `SyncManager::pair_device`, over the interfaces ISyncTransport and
-- ITrustedDeviceStore of include/STManager/sync.h.
use stmanager.Prelude.{Text, Bool, codes, is_empty, ◌++◌, not, ◌&&◌, if◌then◌else◌}
use stmanager.Prelude.Int.{ℤ}
use stmanager.Status.{
  Status, StatusCode, Result, ok, err, fail, Exec, lift, ◌>>=◌, sync_protocol_error, unauthorized,
}
use stmanager.Json.{JsonLibrary}
use stmanager.TrustedDevices.Store.{TrustStore}
use stmanager.Server.Requests.{settle}
use stmanager.Protocol.Messages.{build_pair_request_message, parse_pair_response_message}

pub record DeviceInfo : Type 0 where
  pub device_id : Text
  pub device_name : Text
  pub host : Text
  pub port : ℤ

pub record PairingOptions : Type 0 where
  pub pairing_code : Text
  pub remember_device : Bool

-- ISyncTransport. The callers ignore the status of `disconnect`; a stream is the bytes that it holds.
pub record Transport : Type 1 where
  pub Link : Type 0
  pub connect : DeviceInfo → Exec Link (Unit {0})
  pub disconnect : Link → Link
  pub send_message : Text → Exec Link (Unit {0})
  pub receive_message : Exec Link Text
  pub send_stream : Text → Exec Link (Unit {0})
  pub receive_stream : Exec Link Text

abbrev pub staged_message : Text → Text → Text
staged_message stage message =
    if is_empty message
    then codes "stage=" ++ stage
    else codes "stage=" ++ stage ++ codes "; " ++ message

-- `with_stage` of a status that is not ok.
unfoldable pub with_stage : Text → Status → Status
with_stage stage status = record {
  code = status.code;
  message = staged_message stage status.message;
}

unfoldable pub make_staged_error : {A : Type 0} → StatusCode → Text → Text → Result A
make_staged_error code stage message = fail code (staged_message stage message)

-- A SyncManager: the id and the name of the device that runs, and whether the transport, the
-- discovery and the store are not NULL.
pub record LocalSetup : Type 0 where
  pub local_device_id : Text
  pub local_device_name : Text
  pub has_transport : Bool
  pub has_discovery : Bool
  pub has_trusted_store : Bool

abbrev pub is_configured : LocalSetup → Bool
is_configured setup = setup.has_transport && setup.has_trusted_store

-- The constructor.
unfoldable pub new_sync_manager : Text → Text → Bool → Bool → Bool → LocalSetup
new_sync_manager id name has_transport has_discovery has_trusted_store = record {
  local_device_id = id;
  local_device_name = if is_empty name then id else name;
  has_transport = has_transport;
  has_discovery = has_discovery;
  has_trusted_store = has_trusted_store;
}

module _ (lib : JsonLibrary) (net : Transport) (store : TrustStore) (setup : LocalSetup) where
  -- A call on the link; on an error `cleanup` is run, and the error gets its stage.
  abbrev pub link_step :
      {A B : Type 0}
      → Text
      → (net.Link → net.Link)
      → Exec net.Link A
      → (A → Exec (net.Link × store.State) B)
      → Exec (net.Link × store.State) B
  link_step stage cleanup call rest (l, t) =
      let (r, l') = call l in
      settle r (λ e. λ (m, u). (err (with_stage stage e), (cleanup m, u))) rest (l', t)

  abbrev pub store_step :
      {B : Type 0}
      → Text
      → Exec store.State (Unit {0})
      → Exec (net.Link × store.State) B
      → Exec (net.Link × store.State) B
  store_step stage call rest (l, t) =
      let (r, t') = call t in settle r (λ e s. (err (with_stage stage e), s)) (λ _. rest) (l, t')

  -- After the response: the link is closed, and the device is trusted if it is to be remembered.
  unfoldable pub conclude_pairing :
      DeviceInfo → PairingOptions → Bool × Text → Exec (net.Link × store.State) (Unit {0})
  unfolding with_stage make_staged_error
  conclude_pairing device_info options (is_accepted, response_error) (l, t) =
      if not is_accepted
      then (
        make_staged_error unauthorized (codes "pair.remote.reject") (
            if is_empty response_error
            then codes "Pairing rejected by remote device"
            else response_error),
        (net.disconnect l, t),
      )
      else if not options.remember_device
      then (ok tt, (net.disconnect l, t))
      else store_step (codes "pair.trusted_store.trust") (store.trust_device device_info.device_id)
          (store_step (codes "pair.trusted_store.save") store.save (λ s. (ok tt, s)))
          (net.disconnect l, t)

  abbrev pub stay : net.Link → net.Link
  stay l = l

  unfoldable pub pair_connected :
      DeviceInfo → PairingOptions → Text → Exec (net.Link × store.State) (Unit {0})
  unfolding conclude_pairing with_stage
  pair_connected device_info options pair_request_message =
      link_step (codes "pair.protocol.send_request") net.disconnect
        (net.send_message pair_request_message)
        (λ _.
          link_step (codes "pair.protocol.receive_response") net.disconnect net.receive_message
            (λ pair_response_message.
              link_step (codes "pair.protocol.parse_response") net.disconnect
                (lift (parse_pair_response_message lib pair_response_message))
                (conclude_pairing device_info options)))

  unfoldable pub pair_device :
      DeviceInfo → PairingOptions → Exec (net.Link × store.State) (Unit {0})
  unfolding pair_connected with_stage make_staged_error
  pair_device device_info options =
      if is_configured setup
      then store_step (codes "pair.trusted_store.load") store.load (
          link_step (codes "pair.transport.connect") stay (net.connect device_info) (λ _.
            lift (
              build_pair_request_message lib setup.local_device_id setup.local_device_name
                options.pairing_code options.remember_device)
            >>= pair_connected device_info options))
      else lift (
          make_staged_error sync_protocol_error (codes "pair.init")
            (codes "Transport or trusted device store is not configured"))
