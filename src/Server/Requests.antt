-- ===== src/Server/Requests.antt =====
-- src/sync_server.cpp: `handle_pair_request`, `handle_auth_request` and `handle_client_connection`.
-- The archive that `DataManager::backup` writes is a parameter, and so is the store of the trusted
-- devices.
use stmanager.Prelude.{
  ℕ, Text, Bool, true, false, codes, is_empty, text_eq, ◌++◌, [], not, ◌&&◌, if◌then◌else◌,
}
use stmanager.Status.{
  Status, Result, ok, err, looping, threw, fail, Exec, lift, throw, ◌>>=◌, ◌>>◌,
  sync_protocol_error,
}
use stmanager.Json.{Json, JsonLibrary, value_string, value_boolean, parsed, is_object}
use stmanager.Wire.Socket.{Socket}
use stmanager.Wire.Frames.{receive_framed_string}
use stmanager.Wire.Runs.{in_stream}
use stmanager.TrustedDevices.Store.{TrustStore}
use stmanager.Server.Replies.{with_server_context, send_json_response, server_send_framed_stream}

module _ {S A B : Type 0} where
  -- The handling of a status that is not ok; exceptions pass.
  abbrev pub settle : Result A → (Status → Exec S B) → (A → Exec S B) → Exec S B
  settle (ok a) failed done s = done a s
  settle (err e) failed done s = failed e s
  settle looping failed done s = (looping, s)
  settle (threw what) failed done s = (threw what, s)

-- What the server is given: `server_build`, `options.pairing_code`, whether `trusted_store` is not
-- NULL, and the bytes or the status of a backup.
pub record ServerSetup : Type 0 where
  pub server_build : Text
  pub pairing_code : Text
  pub has_store : Bool
  pub backup : Result Text

module _ (lib : JsonLibrary) (k : Socket) (fuel : ℕ) (store : TrustStore)
    (setup : ServerSetup) where
  abbrev pub on_client : {A : Type 0} → Exec k.Conn A → Exec (k.Conn × store.State) A
  on_client m (c, t) = let (r, c') = m c in (r, (c', t))

  abbrev pub respond : Text → Bool → Text → Exec (k.Conn × store.State) (Unit {0})
  respond message_type accepted error =
      on_client (send_json_response k fuel lib message_type accepted error)

  abbrev pub refuse : Text → Text → Text → Exec (k.Conn × store.State) (Unit {0})
  refuse message_type stage message =
      respond message_type false (with_server_context setup.server_build stage message)

  -- A call of the store; if it fails, the client is told the stage and the message.
  abbrev pub with_store :
      Exec store.State (Unit {0})
      → Text
      → Text
      → Exec (k.Conn × store.State) (Unit {0})
      → Exec (k.Conn × store.State) (Unit {0})
  with_store call message_type stage rest (c, t) =
      let (r, t') = call t in
      settle r (λ e. refuse message_type stage e.message) (λ _. rest) (c, t')

  unfoldable pub pair_checked : Text → Text → Bool → Exec (k.Conn × store.State) (Unit {0})
  pair_checked remote_device_id pairing_code remember_device =
      if is_empty remote_device_id
      then refuse (codes "pair_response") (codes "server.pair.validate.device_id")
          (codes "Missing device_id")
      else if not (is_empty setup.pairing_code) && not (text_eq pairing_code setup.pairing_code)
      then refuse (codes "pair_response") (codes "server.pair.validate.pairing_code")
          (codes "Invalid pairing code")
      else if remember_device && setup.has_store
      then with_store store.load (codes "pair_response") (codes "server.pair.trusted_store.load") (
          with_store (store.trust_device remote_device_id) (codes "pair_response")
            (codes "server.pair.trusted_store.trust")
            (with_store store.save (codes "pair_response") (codes "server.pair.trusted_store.save")
              (respond (codes "pair_response") true [])))
      else respond (codes "pair_response") true []

  unfoldable pub handle_pair_request : Json → Exec (k.Conn × store.State) (Unit {0})
  unfolding pair_checked
  handle_pair_request request_json = do
    remote_device_id ← lift (value_string lib (codes "device_id") [] request_json)
    pairing_code ← lift (value_string lib (codes "pairing_code") [] request_json)
    remember_device ← lift (value_boolean lib (codes "remember_device") true request_json)
    pair_checked remote_device_id pairing_code remember_device

  -- What `backup` left in the stream.
  unfoldable pub send_backup : Exec (k.Conn × store.State) (Unit {0})
  send_backup =
      settle setup.backup
        (λ e. refuse (codes "auth_response") (codes "server.auth.backup.create") e.message)
        (λ archive.
          if is_empty archive
          then refuse (codes "auth_response") (codes "server.auth.backup.empty")
              (codes "Backup produced empty archive")
          else on_client (
              send_json_response k fuel lib (codes "auth_response") true []
              >> server_send_framed_stream k fuel (in_stream archive)))

  unfoldable pub auth_loaded : Text → Text → Exec (k.Conn × store.State) (Unit {0})
  unfolding send_backup
  auth_loaded remote_device_id direction (c, t) =
      if not (store.is_trusted t remote_device_id)
      then refuse (codes "auth_response") (codes "server.auth.trusted_store.verify")
          (codes "Device is not trusted") (c, t)
      else if not (text_eq direction (codes "pull"))
      then refuse (codes "auth_response") (codes "server.auth.validate.direction")
          (codes "Only pull direction is supported") (c, t)
      else send_backup (c, t)

  unfoldable pub auth_checked : Text → Text → Exec (k.Conn × store.State) (Unit {0})
  unfolding auth_loaded
  auth_checked remote_device_id direction =
      if is_empty remote_device_id
      then refuse (codes "auth_response") (codes "server.auth.validate.device_id")
          (codes "Missing device_id")
      else if not setup.has_store
      then refuse (codes "auth_response") (codes "server.auth.trusted_store.config")
          (codes "Trusted device store is not configured")
      else with_store store.load (codes "auth_response") (codes "server.auth.trusted_store.load")
          (auth_loaded remote_device_id direction)

  unfoldable pub handle_auth_request : Json → Exec (k.Conn × store.State) (Unit {0})
  unfolding auth_checked
  handle_auth_request request_json = do
    remote_device_id ← lift (value_string lib (codes "device_id") [] request_json)
    direction ← lift (value_string lib (codes "direction") [] request_json)
    auth_checked remote_device_id direction

  unfoldable pub handle_request : Json → Text → Exec (k.Conn × store.State) (Unit {0})
  handle_request request_json message_type =
      if text_eq message_type (codes "pair_request")
      then handle_pair_request request_json
      else if text_eq message_type (codes "auth_request")
      then handle_auth_request request_json
      else throw sync_protocol_error (codes "Unsupported request type")

  unfoldable pub serve_client : Exec (k.Conn × store.State) (Unit {0})
  unfolding handle_request
  serve_client = do
    request_message ← on_client (receive_framed_string k fuel)
    request_json ← lift (parsed lib request_message (lib.parse request_message))
    if is_object request_json
        then lift (value_string lib (codes "type") [] request_json) >>= handle_request request_json
        else throw sync_protocol_error (codes "Protocol request must be a json object")

  abbrev caught : Result (Unit {0}) → Result (Unit {0})
  caught (threw what) = fail sync_protocol_error (codes "stage=server.client.exception; " ++ what)
  caught r = r

  unfoldable pub handle_client_connection : Exec (k.Conn × store.State) (Unit {0})
  unfolding serve_client
  handle_client_connection s = let (r, s') = serve_client s in (caught r, s')
