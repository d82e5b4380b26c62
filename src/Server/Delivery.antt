-- ===== src/Server/Delivery.antt =====
-- A device that the server trusts gets the archive: `handle_auth_request` of src/sync_server.cpp
-- against the receiving side of src/tcp_transport.cpp.
use stmanager.Prelude.{
  ℕ, ◌+◌, ◌-◌, ◌^◌, ◌≤◌, ◌<◌, Text, true, codes, length, [], ◌++◌, some, ◌≡◌, refl, sym, ap, ◌∙◌,
  arith, append_assoc, not_lt→ltb, text_eq_refl,
}
use stmanager.Status.{ok}
use stmanager.Json.{Json, JsonLibrary}
use stmanager.Wire.Socket.{Socket, View, IsReliable}
use stmanager.Wire.Words.{write_u64}
use stmanager.Wire.Frames.{
  max_control_message_bytes, OutStream, receive_framed_string, receive_framed_stream,
  send_framed_string,
}
use stmanager.Wire.Delivery.{Done, Done-bind, append_cancel}
use stmanager.Wire.Streams.{IsStoring, send_chunks-Done}
use stmanager.Wire.Runs.{
  frame, in_stream, stream_head, send_framed_string-Done, receive_framed_string-Done, next_streamed,
  write_u64-Done,
}
use stmanager.Wire.Agreement.{receive_framed_stream-arrived}
use stmanager.TrustedDevices.Store.{TrustStore}
use stmanager.Server.Replies.{
  response_json, send_json_response, server_send_framed_string, server_send_framed_stream,
}
use stmanager.Server.Requests.{
  ServerSetup, send_backup, auth_loaded, auth_checked, handle_auth_request,
}
use stmanager.Server.Archive.{MaySend, accept_with}

module _ {k : Socket} (v : View k) (reliable : IsReliable v) (fuel : ℕ) where
  pub server_send_framed_string-Done :
      (message : Text) (c : k.Conn)
      → length message ≤ 2 ^ 32 - 1
      → v.interrupts c + length message + 4 ≤ fuel
      → Done v (server_send_framed_string k fuel message c) c tt [] (frame message)
  unfolding server_send_framed_string send_framed_string
  server_send_framed_string-Done message c small h =
      rw (not_lt→ltb (2 ^ 32 - 1) (length message) small) (
        rw (not_lt→ltb (2 ^ 32 - 1) (length message) small) at
          (send_framed_string-Done v reliable fuel message c small h))

  server_send_framed_stream-Done :
      (contents : Text) (c : k.Conn)
      → v.interrupts c + length contents + 8 ≤ fuel
      → Done v
          (server_send_framed_stream k fuel (in_stream contents) c)
          c
          tt
          []
          (stream_head (length contents) ++ contents)
  unfolding server_send_framed_stream
  server_send_framed_stream-Done contents c h =
      Done-bind v (write_u64 k fuel (length contents)) _ c tt tt [] []
        (stream_head (length contents)) contents head
        (send_chunks-Done v reliable fuel _ fuel contents (write_u64 k fuel (length contents) c).1
          (omega arith) (omega (arith, head.patience)))
    where
      head : Done v (write_u64 k fuel (length contents) c) c tt [] (stream_head (length contents))
      head = write_u64-Done v reliable fuel (length contents) c (omega arith)

  module _ (lib : JsonLibrary) (store : TrustStore) (setup : ServerSetup) where
    accept_with-Done :
        (archive text : Text) (c : k.Conn)
        → lib.dump (response_json (codes "auth_response") true []) ≡ some text
        → length text ≤ 2 ^ 32 - 1
        → v.interrupts c + length text + length archive + 12 ≤ fuel
        → Done v
            (accept_with lib k fuel store setup archive c)
            c
            tt
            []
            (frame text ++ (stream_head (length archive) ++ archive))
    unfolding send_json_response
    accept_with-Done archive text c printed small h =
        Done-bind v (send_json_response k fuel lib (codes "auth_response") true [])
          (λ _. server_send_framed_stream k fuel (in_stream archive)) c tt tt [] [] (frame text)
          (stream_head (length archive) ++ archive) head
          (server_send_framed_stream-Done archive _ (omega (arith, head.patience)))
      where
        head :
            Done v
              (send_json_response k fuel lib (codes "auth_response") true [] c)
              c
              tt
              []
              (frame text)
        head = rw printed (server_send_framed_string-Done text c small (omega arith))

    handle_auth_request-MaySend :
        (request_json : Json) (archive : Text) (c : k.Conn) (t : store.State)
        → MaySend lib k fuel store setup request_json t archive
        → handle_auth_request lib k fuel store setup request_json (c, t) ≡ (
          (accept_with lib k fuel store setup archive c).0,
          ((accept_with lib k fuel store setup archive c).1, (store.load t).1),
        )
    unfolding handle_auth_request auth_checked auth_loaded send_backup
    handle_auth_request-MaySend j archive c t may =
        rw (may.device_named, may.pulls, may.device_given, may.configured, may.loaded)
          (rw (may.trusted, text_eq_refl (codes "pull"), may.backed_up, may.not_empty) refl)

-- A device that the server may send the archive to gets it: `handle_auth_request` succeeds, and a
-- client that finds on its connection what the server sent, with anything behind it, receives the
-- accepting answer as a message and the archive as a stream, which it writes whole.
pub handle_auth_request-delivers :
    {k l : Socket} (v : View k) (w : View l) (o : OutStream) (storing : IsStoring o) (fuel : ℕ)
    (lib : JsonLibrary) (store : TrustStore) (setup : ServerSetup) (request_json : Json)
    (archive text rest : Text) (c : k.Conn) (t : store.State) (d : l.Conn) (out : o.Out)
    → IsReliable v
    → IsReliable w
    → MaySend lib k fuel store setup request_json t archive
    → lib.dump (response_json (codes "auth_response") true []) ≡ some text
    → length text ≤ max_control_message_bytes
    → length archive < 2 ^ 64
    → v.interrupts c + length text + length archive + 12 ≤ fuel
    → w.interrupts d + length text + length archive + 12 ≤ fuel
    → v.output (handle_auth_request lib k fuel store setup request_json (c, t)).1.0 ++ rest
      ≡ v.output c ++ w.stream d
    → ((handle_auth_request lib k fuel store setup request_json (c, t)).0 ≡ ok tt)
      × ((receive_framed_string l fuel d).0 ≡ ok text)
      × ((receive_framed_stream l fuel o ((receive_framed_string l fuel d).1, out)).0 ≡ ok tt)
      × (storing.contents
            (receive_framed_stream l fuel o ((receive_framed_string l fuel d).1, out)).1.1
          ≡ storing.contents out ++ archive)
      × (w.stream (receive_framed_stream l fuel o ((receive_framed_string l fuel d).1, out)).1.0
          ≡ rest)
handle_auth_request-delivers {k} {l} v w o storing fuel lib store setup j archive text rest c t d
      out rv rw' may printed small fits fc fd wire =
    let (stream_returned, stored, left) =
      receive_framed_stream-arrived w o storing fuel archive rest (receive_framed_string l fuel d).1
        out rw' fits (omega (arith, received.patience))
        (next_streamed w rw' fuel d (frame text) _ [] arrived received) in
    (ap (λ r. r.0) answer ∙ sent.returned, received.returned, stream_returned, stored, left)
  where
    stream_part : Text
    stream_part = stream_head (length archive) ++ (archive ++ rest)

    answer : handle_auth_request lib k fuel store setup j (c, t) ≡ (
      (accept_with lib k fuel store setup archive c).0,
      ((accept_with lib k fuel store setup archive c).1, (store.load t).1),
    )
    answer = handle_auth_request-MaySend v rv fuel lib store setup j archive c t may

    sent :
        Done v
          (accept_with lib k fuel store setup archive c)
          c
          tt
          []
          (frame text ++ (stream_head (length archive) ++ archive))
    sent = accept_with-Done v rv fuel lib store setup archive text c printed (omega arith) fc

    arrived : w.stream d ≡ frame text ++ stream_part
    arrived =
        append_cancel (v.output c) (w.stream d) _ (
          sym wire
          ∙ (ap (λ r. v.output r.1.0 ++ rest) answer
              ∙ (ap (λ u. u ++ rest) sent.sent_out ∙ append_assoc (v.output c) _ rest)))
        ∙ (append_assoc (frame text) _ rest
            ∙ ap (λ u. frame text ++ u) (append_assoc (stream_head (length archive)) archive rest))

    received : Done w (receive_framed_string l fuel d) d text (frame text) []
    received = receive_framed_string-Done w rw' fuel text stream_part d small arrived (omega arith)
