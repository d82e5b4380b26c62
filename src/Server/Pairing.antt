-- ===== src/Server/Pairing.antt =====
-- A device that pairs stays trusted: `handle_pair_request` of src/sync_server.cpp over the class
-- JsonTrustedDeviceStore of src/sync.cpp.
use stmanager.Prelude.{
  ℕ, Text, true, false, codes, is_empty, text_eq, text_eq_refl, length, some, ◌+◌, ◌-◌, ◌^◌, ◌≤◌,
  ◌++◌, sym, append_assoc, List, [], not, ◌&&◌, ◌≡◌, ◌⊎◌, inl, inr, refl, ap, ◌∙◌, arith,
}
use stmanager.Status.{ok}
use stmanager.Json.{Json, JsonLibrary, IsRoundTrip, value_string, value_boolean}
use stmanager.Wire.Socket.{Socket, View, IsReliable}
use stmanager.Wire.Frames.{max_control_message_bytes, receive_framed_string}
use stmanager.Wire.Delivery.{Done, append_cancel}
use stmanager.Wire.Runs.{frame, receive_framed_string-Done}
use stmanager.Protocol.Messages.{parse_pair_response_message}
use stmanager.Protocol.Meeting.{parse_common_response-response_json}
use stmanager.TrustedDevices.Files.{FileSystem, IsFaithful}
use stmanager.TrustedDevices.Ids.{contains_device_id, add_device_id, contains-add}
use stmanager.TrustedDevices.Store.{
  JsonStore, json_trusted_device_store, load_trusted_device_ids, save_trusted_device_ids,
  json_is_trusted, json_trust_device,
}
use stmanager.TrustedDevices.Persistence.{load-save}
use stmanager.Server.Replies.{response_json, send_json_response}
use stmanager.Server.Delivery.{server_send_framed_string-Done}
use stmanager.Server.Requests.{ServerSetup, pair_checked, handle_pair_request}

module _ (lib : JsonLibrary) (fs : FileSystem) (k : Socket) (fuel : ℕ) (setup : ServerSetup) where
  -- The store with the device, before it is saved.
  abbrev pub with_device : JsonStore fs → Text → JsonStore fs
  with_device t device =
      let loaded = (load_trusted_device_ids lib fs t).1 in
      record loaded { ids = add_device_id loaded.ids device }

  -- A request with the right pairing code, to be remembered, from a device with a name.
  pub record MayPair (request_json : Json) (t : JsonStore fs) (device : Text) : Type 0 where
    pub code : Text
    pub device_named : value_string lib (codes "device_id") [] request_json ≡ ok device
    pub code_given : value_string lib (codes "pairing_code") [] request_json ≡ ok code
    pub remembered : value_boolean lib (codes "remember_device") true request_json ≡ ok true
    pub device_given : is_empty device ≡ false
    pub code_right : (setup.pairing_code ≡ []) ⊎ (code ≡ setup.pairing_code)
    pub configured : setup.has_store ≡ true
    pub loads : (load_trusted_device_ids lib fs t).0 ≡ ok tt
    pub saves : (save_trusted_device_ids lib fs (with_device t device)).0 ≡ ok tt

  code_accepted :
      (code : Text)
      → (setup.pairing_code ≡ []) ⊎ (code ≡ setup.pairing_code)
      → (not (is_empty setup.pairing_code) && not (text_eq code setup.pairing_code)) ≡ false
  code_accepted code (inl e) = rw e refl
  code_accepted code (inr e) = rw (e, text_eq_refl setup.pairing_code) (ground arith)

  handle_pair_request-MayPair :
      (request_json : Json) (device : Text) (c : k.Conn) (t : JsonStore fs)
      → MayPair request_json t device
      → handle_pair_request lib k fuel (json_trusted_device_store lib fs) setup request_json (c, t)
        ≡ (
          (send_json_response k fuel lib (codes "pair_response") true [] c).0,
          (
            (send_json_response k fuel lib (codes "pair_response") true [] c).1,
            (save_trusted_device_ids lib fs (with_device t device)).1,
          ),
        )
  unfolding handle_pair_request pair_checked json_trust_device
  handle_pair_request-MayPair j device c t may =
      rw
        (
          may.device_named,
          may.code_given,
          may.remembered,
          may.device_given,
          code_accepted may.code may.code_right,
          may.configured,
          may.loads,
        )
        (rw may.device_given (rw may.saves refl))

  response-Done :
      (v : View k) (text : Text) (c : k.Conn)
      → IsReliable v
      → lib.dump (response_json (codes "pair_response") true []) ≡ some text
      → length text ≤ 2 ^ 32 - 1
      → v.interrupts c + length text + 4 ≤ fuel
      → Done v
          (send_json_response k fuel lib (codes "pair_response") true [] c)
          c
          tt
          []
          (frame text)
  unfolding send_json_response
  response-Done v text c reliable printed small h =
      rw printed (server_send_framed_string-Done v reliable fuel text c small h)

  saved-trusted :
      (device : Text) (t : JsonStore fs) (stale : List Text)
      → IsRoundTrip lib
      → IsFaithful fs
      → (save_trusted_device_ids lib fs (with_device t device)).0 ≡ ok tt
      → let t' = (save_trusted_device_ids lib fs (with_device t device)).1 in
        (json_is_trusted lib fs t' device ≡ true)
        × (json_is_trusted lib fs
              (load_trusted_device_ids lib fs (record t' { ids = stale })).1
              device
            ≡ true)
  unfolding json_is_trusted
  saved-trusted device t stale trip faithful saves =
      (trusted, rw (load-save lib fs (with_device t device) stale trip faithful saves).0 trusted)
    where
      trusted :
          contains_device_id (save_trusted_device_ids lib fs (with_device t device)).1.ids device
          ≡ true
      trusted =
          ap (λ ids. contains_device_id ids device)
            (load-save lib fs (with_device t device) stale trip faithful saves).1
          ∙ ground (
            arith,
            contains-add (load_trusted_device_ids lib fs t).1.ids device device,
            text_eq_refl device,
          )

-- A device that may pair is told that it is paired, and is trusted: `handle_pair_request` succeeds;
-- a client that finds on its connection what the server sent, with anything behind it, receives a
-- message and reads it as an acceptance; and the device is trusted by the store then, and still
-- when the store is loaded again, whatever list it held in between. Both connections are reliable,
-- with fuel for the message and the interrupts to come; the file system reads back what it wrote,
-- and the JSON library prints the response, in a size that a message may have, and reads back what
-- it printed.
pub handle_pair_request-trusts :
    {k l : Socket} (v : View k) (w : View l) (lib : JsonLibrary) (fs : FileSystem) (fuel : ℕ)
    (setup : ServerSetup) (request_json : Json) (device text rest : Text) (c : k.Conn) (d : l.Conn)
    (t : JsonStore fs) (stale : List Text)
    → IsReliable v
    → IsReliable w
    → IsRoundTrip lib
    → IsFaithful fs
    → MayPair lib fs k fuel setup request_json t device
    → lib.dump (response_json (codes "pair_response") true []) ≡ some text
    → length text ≤ max_control_message_bytes
    → v.interrupts c + length text + 4 ≤ fuel
    → w.interrupts d + length text + 4 ≤ fuel
    → let x =
        handle_pair_request lib k fuel
          (json_trusted_device_store lib fs)
          setup
          request_json
          (c, t) in
      v.output x.1.0 ++ rest ≡ v.output c ++ w.stream d
      → (x.0 ≡ ok tt)
        × ((receive_framed_string l fuel d).0 ≡ ok text)
        × (parse_pair_response_message lib text ≡ ok (true, []))
        × (json_is_trusted lib fs x.1.1 device ≡ true)
        × (json_is_trusted lib fs
              (load_trusted_device_ids lib fs (record (x.1.1) { ids = stale })).1
              device
            ≡ true)
unfolding parse_pair_response_message
handle_pair_request-trusts {k} {l} v w lib fs fuel setup j device text rest c d t stale rv rw' trip
      faithful may printed small fc fd wire =
    let answer = handle_pair_request-MayPair lib fs k fuel setup j device c t may in
    let (now, later) = saved-trusted lib fs k fuel setup device t stale trip faithful may.saves in
    (
      ap (λ r. r.0) answer ∙ sent.returned,
      (receive_framed_string-Done w rw' fuel text rest d small arrived fd).returned,
      parse_common_response-response_json lib (codes "pair_response") true [] text trip printed,
      rw answer now,
      rw answer later,
    )
  where
    sent :
        Done v
          (send_json_response k fuel lib (codes "pair_response") true [] c)
          c
          tt
          []
          (frame text)
    sent = response-Done lib fs k fuel setup v text c rv printed (omega arith) fc

    arrived : w.stream d ≡ frame text ++ rest
    arrived = append_cancel (v.output c) (w.stream d) (frame text ++ rest) (
        sym wire
        ∙ (ap (λ r. v.output r.1.0 ++ rest)
              (handle_pair_request-MayPair lib fs k fuel setup j device c t may)
            ∙ (ap (λ u. u ++ rest) sent.sent_out ∙ append_assoc (v.output c) (frame text) rest)))
