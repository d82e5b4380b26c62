-- ===== src/Server/Replies.antt =====
-- src/sync_server.cpp: the answers of the server and how they are sent. Its copies of `write_all`,
-- `read_all`, `write_u32`, `read_u32`, `write_u64`, `read_u64` and `receive_framed_string` are those
-- of Wire line by line; what differs is here.
use stmanager.Prelude.{
  ℕ, ◌-◌, ◌^◌, Text, Bool, codes, is_empty, ltb, length, none, some, ◌++◌, [], if◌then◌else◌,
}
use stmanager.Status.{Exec, lift, throw, ◌>>=◌, ◌>>◌, io_error, sync_protocol_error}
use stmanager.Json.{Json, boolean, string, object, none_left, member, JsonLibrary, dumped}
use stmanager.Wire.Socket.{Socket}
use stmanager.Wire.Transfer.{write_all}
use stmanager.Wire.Words.{write_u32, write_u64}
use stmanager.Wire.Frames.{InStream, send_chunks}

-- `error` comes before `ok`, and `ok` before `type`.
unfoldable pub response_json : Text → Bool → Text → Json
response_json message_type ok error =
    let rest =
      member (codes "ok") (boolean ok) (member (codes "type") (string message_type) none_left) in
    object (if is_empty error then rest else member (codes "error") (string error) rest)

-- `server_build` is the date and the time of the build, which the compiler puts in.
unfoldable pub with_server_build_info : Text → Text → Text
with_server_build_info server_build message =
    if is_empty message
    then codes "server_build=" ++ server_build
    else codes "server_build=" ++ server_build ++ codes "; " ++ message

unfoldable pub with_server_context : Text → Text → Text → Text
unfolding with_server_build_info
with_server_context server_build stage message =
    let context = with_server_build_info server_build [] ++ codes "; stage=" ++ stage in
    if is_empty message then context else context ++ codes "; " ++ message

module _ (k : Socket) (fuel : ℕ) where
  unfoldable pub server_send_framed_string : Text → Exec k.Conn (Unit {0})
  server_send_framed_string payload =
      if ltb (2 ^ 32 - 1) (length payload)
      then throw sync_protocol_error (codes "Message is too large")
      else write_u32 k fuel (length payload) >> write_all k fuel payload

  unfoldable pub server_send_framed_stream : InStream → Exec k.Conn (Unit {0})
  server_send_framed_stream stream = elim stream.end_position [
    | none ↦ throw io_error (codes "Failed to determine stream size")
    | some stream_size ↦
        write_u64 k fuel stream_size
        >> send_chunks k fuel (codes "Unexpected end of stream") fuel stream.contents stream_size
  ]

  unfoldable pub send_json_response : JsonLibrary → Text → Bool → Text → Exec k.Conn (Unit {0})
  unfolding response_json server_send_framed_string
  send_json_response lib message_type ok error =
      let response = response_json message_type ok error in
      lift (dumped lib response (lib.dump response)) >>= server_send_framed_string
