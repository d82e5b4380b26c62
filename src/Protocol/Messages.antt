-- ===== src/Protocol/Messages.antt =====
-- src/sync_protocol.cpp: the requests that the client builds and the responses that it parses.
use stmanager.Prelude.{Text, Bool, false, codes, text_eq, none, some, [], if◌then◌else◌}
use stmanager.Status.{Result, ok, err, looping, threw, fail, sync_protocol_error}
use stmanager.Json.{
  Json, boolean, string, object, none_left, member, JsonLibrary, parse_error, value_string,
  value_boolean, is_object, dumped,
}

pub data SyncDirection : Type 0 where
  push pull : SyncDirection

abbrev pub direction_text : SyncDirection → Text
direction_text push = codes "push"
direction_text pull = codes "pull"

-- The members in the order of their names.
unfoldable pub pair_request_json : Text → Text → Text → Bool → Json
pair_request_json local_device_id local_device_name pairing_code remember_device = object (
    member (codes "device_id") (string local_device_id) (
      member (codes "device_name") (string local_device_name) (
        member (codes "pairing_code") (string pairing_code) (
          member (codes "remember_device") (boolean remember_device)
            (member (codes "type") (string (codes "pair_request")) none_left)))))

unfoldable pub auth_request_json : Text → Text → SyncDirection → Json
auth_request_json local_device_id local_device_name direction = object (
    member (codes "device_id") (string local_device_id) (
      member (codes "device_name") (string local_device_name) (
        member (codes "direction") (string (direction_text direction))
          (member (codes "type") (string (codes "auth_request")) none_left))))

module _ (lib : JsonLibrary) where
  unfoldable pub build_pair_request_message : Text → Text → Text → Bool → Result Text
  unfolding pair_request_json
  build_pair_request_message local_device_id local_device_name pairing_code remember_device =
      let request =
        pair_request_json local_device_id local_device_name pairing_code remember_device in
      dumped lib request (lib.dump request)

  unfoldable pub build_auth_request_message : Text → Text → SyncDirection → Result Text
  unfolding auth_request_json
  build_auth_request_message local_device_id local_device_name direction =
      let request = auth_request_json local_device_id local_device_name direction in
      dumped lib request (lib.dump request)

  -- `*accepted` and `*response_error`, which are read last; every exception is caught.
  abbrev read_response : Json → Result Bool → Result Text → Result (Bool × Text)
  read_response j (ok accepted) (ok response_error) = ok (accepted, response_error)
  read_response j (ok accepted) (threw what) = fail sync_protocol_error what
  read_response j (ok accepted) (err e) = err e
  read_response j (ok accepted) looping = looping
  read_response j (threw what) _ = fail sync_protocol_error what
  read_response j (err e) _ = err e
  read_response j looping _ = looping

  abbrev read_type : Json → Text → Result Text → Result (Bool × Text)
  read_type j expected_type (ok message_type) =
      if text_eq message_type expected_type
      then read_response j (value_boolean lib (codes "ok") false j)
          (value_string lib (codes "error") [] j)
      else fail sync_protocol_error (codes "Unexpected protocol response type")
  read_type j expected_type (threw what) = fail sync_protocol_error what
  read_type j expected_type (err e) = err e
  read_type j expected_type looping = looping

  unfoldable pub parse_common_response : Text → Text → Result (Bool × Text)
  parse_common_response message expected_type = elim (lib.parse message) [
    | none ↦ fail sync_protocol_error (lib.what (parse_error message))
    | some j ↦
        if is_object j
        then read_type j expected_type (value_string lib (codes "type") [] j)
        else fail sync_protocol_error (codes "Invalid protocol response object")
  ]

  unfoldable pub parse_pair_response_message : Text → Result (Bool × Text)
  unfolding parse_common_response
  parse_pair_response_message message = parse_common_response message (codes "pair_response")

  unfoldable pub parse_auth_response_message : Text → Result (Bool × Text)
  unfolding parse_common_response
  parse_auth_response_message message = parse_common_response message (codes "auth_response")
