-- ===== src/Protocol/Meeting.antt =====
-- The client of src/sync_protocol.cpp and the server of src/sync_server.cpp read what the other one
-- writes.
use stmanager.Prelude.{
  Text, Bool, true, false, codes, text_eq, text_eq_refl, Option, none, some, [], ◌∷◌, ◌≡◌, refl,
}
use stmanager.Status.{ok}
use stmanager.Json.{
  Json, JsonLibrary, IsRoundTrip, IsOrdered, text_lt, find, find_member, value_string,
  value_boolean, is_object, dumped,
}
use stmanager.Server.Replies.{response_json}
use stmanager.Protocol.Messages.{
  SyncDirection, direction_text, pair_request_json, auth_request_json, build_pair_request_message,
  build_auth_request_message, parse_common_response,
}

response_json-IsOrdered :
    (message_type : Text) (accepted : Bool) (error : Text)
    → IsOrdered (response_json message_type accepted error)
unfolding response_json IsOrdered text_lt codes
response_json-IsOrdered kind accepted [] = (refl, (tt, (tt, (tt, tt))))
response_json-IsOrdered kind accepted (e ∷ es) = (refl, (tt, (refl, (tt, (tt, (tt, tt))))))

module _ (lib : JsonLibrary) where
  -- The members of a response, as they are read.
  response_json-read :
      (message_type : Text) (accepted : Bool) (error : Text)
      → let j = response_json message_type accepted error in
        (is_object j ≡ true)
        × (value_string lib (codes "type") [] j ≡ ok message_type)
        × (value_boolean lib (codes "ok") false j ≡ ok accepted)
        × (value_string lib (codes "error") [] j ≡ ok error)
  unfolding response_json value_string value_boolean find find_member text_eq codes
  response_json-read kind accepted [] = (refl, refl, refl, refl)
  response_json-read kind accepted (e ∷ es) = (refl, refl, refl, refl)

  -- The client reads a response that the server printed as what the server said: whether it
  -- accepts, and the error; with a JSON library that reads back what it printed.
  pub parse_common_response-response_json :
      (message_type : Text) (accepted : Bool) (error text : Text)
      → IsRoundTrip lib
      → lib.dump (response_json message_type accepted error) ≡ some text
      → parse_common_response lib text message_type ≡ ok (accepted, error)
  unfolding parse_common_response
  parse_common_response-response_json kind accepted error text trip printed =
      let (an_object, type_read, ok_read, error_read) = response_json-read kind accepted error in
      rw
        (
          trip.parse-dump (response_json kind accepted error) text
              (response_json-IsOrdered kind accepted error) printed,
          parse_common_response,
          an_object,
          type_read,
          text_eq_refl kind,
          ok_read,
          error_read,
        )
        refl

  -- What the server reads of a request.
  pub record PairRead (j : Json) (device_id code : Text) (remember : Bool) : Type 0 where
    pub an_object : is_object j ≡ true
    pub type_read : value_string lib (codes "type") [] j ≡ ok (codes "pair_request")
    pub device_read : value_string lib (codes "device_id") [] j ≡ ok device_id
    pub code_read : value_string lib (codes "pairing_code") [] j ≡ ok code
    pub remember_read : value_boolean lib (codes "remember_device") true j ≡ ok remember

  pub record AuthRead (j : Json) (device_id : Text) (direction : SyncDirection) : Type 0 where
    pub an_object : is_object j ≡ true
    pub type_read : value_string lib (codes "type") [] j ≡ ok (codes "auth_request")
    pub device_read : value_string lib (codes "device_id") [] j ≡ ok device_id
    pub direction_read : value_string lib (codes "direction") [] j ≡ ok (direction_text direction)

  pair_request_json-PairRead :
      (id name code : Text) (remember : Bool)
      → PairRead (pair_request_json id name code remember) id code remember
  unfolding pair_request_json value_string value_boolean find find_member text_eq codes
  pair_request_json-PairRead id name code remember = record {
    an_object = refl;
    type_read = refl;
    device_read = refl;
    code_read = refl;
    remember_read = refl;
  }

  auth_request_json-AuthRead :
      (id name : Text) (direction : SyncDirection)
      → AuthRead (auth_request_json id name direction) id direction
  unfolding auth_request_json value_string find find_member text_eq codes
  auth_request_json-AuthRead id name direction = record {
    an_object = refl;
    type_read = refl;
    device_read = refl;
    direction_read = refl;
  }

  pair_request_json-IsOrdered :
      (id name code : Text) (remember : Bool) → IsOrdered (pair_request_json id name code remember)
  unfolding pair_request_json IsOrdered text_lt codes
  pair_request_json-IsOrdered id name code remember =
      (refl, (tt, (refl, (tt, (refl, (tt, (refl, (tt, (tt, (tt, tt))))))))))

  auth_request_json-IsOrdered :
      (id name : Text) (direction : SyncDirection) → IsOrdered (auth_request_json id name direction)
  unfolding auth_request_json IsOrdered text_lt codes
  auth_request_json-IsOrdered id name direction =
      (refl, (tt, (refl, (tt, (refl, (tt, (tt, (tt, tt))))))))

  -- A printed value: what `build` returned is its text.
  dumped-ok : (j : Json) (o : Option Text) (text : Text) → dumped lib j o ≡ ok text → o ≡ some text
  dumped-ok j none text h = cc
  dumped-ok j (some t) text h = cc

  -- The server reads a pairing request that the client built as the client meant it: its type, the
  -- device, the pairing code and whether to remember the device; with a JSON library that reads
  -- back what it printed.
  pub build_pair_request_message-PairRead :
      (device_id device_name code text : Text) (remember : Bool)
      → IsRoundTrip lib
      → build_pair_request_message lib device_id device_name code remember ≡ ok text
      → (j : Json) × (lib.parse text ≡ some j) × PairRead j device_id code remember
  unfolding build_pair_request_message
  build_pair_request_message-PairRead id name code text remember trip h =
      let j = pair_request_json id name code remember in
      (
        j,
        trip.parse-dump j text (pair_request_json-IsOrdered id name code remember)
            (dumped-ok j (lib.dump j) text h),
        pair_request_json-PairRead id name code remember,
      )

  -- The server reads an authorisation request that the client built as the client meant it: its
  -- type, the device and the direction; with a JSON library that reads back what it printed.
  pub build_auth_request_message-AuthRead :
      (device_id device_name text : Text) (direction : SyncDirection)
      → IsRoundTrip lib
      → build_auth_request_message lib device_id device_name direction ≡ ok text
      → (j : Json) × (lib.parse text ≡ some j) × AuthRead j device_id direction
  unfolding build_auth_request_message
  build_auth_request_message-AuthRead id name text direction trip h =
      let j = auth_request_json id name direction in
      (
        j,
        trip.parse-dump j text (auth_request_json-IsOrdered id name direction)
            (dumped-ok j (lib.dump j) text h),
        auth_request_json-AuthRead id name direction,
      )
