-- ===== src/Wire/Agreement.antt =====
-- What `send_framed_string` and `send_framed_stream` put on the wire, their counterparts take off
-- it again: the round trips of src/tcp_transport.cpp over connections that deliver.
use stmanager.Prelude.{
  ℕ, ◌+◌, ◌^◌, ◌≤◌, ◌<◌, Text, length, [], ◌++◌, ◌≡◌, sym, ap, ◌∙◌, arith, append_assoc,
}
use stmanager.Status.{ok}
use stmanager.Wire.Socket.{Socket, View, IsReliable}
use stmanager.Wire.Words.{write_u64, read_u64}
use stmanager.Wire.Frames.{
  max_control_message_bytes, OutStream, send_framed_string, receive_framed_string,
  send_framed_stream, receive_chunks, receive_framed_stream,
}
use stmanager.Wire.Delivery.{Done, Done-bind, append_cancel}
use stmanager.Wire.Streams.{IsStoring, Stored, send_chunks-Done, receive_chunks-Stored}
use stmanager.Wire.Runs.{
  frame, in_stream, stream_head, send_framed_string-Done, receive_framed_string-Done, next_streamed,
  write_u64-Done, read_u64-Done,
}

pub send_framed_stream-Done :
    {k : Socket} (v : View k) (reliable : IsReliable v) (fuel : ℕ) (contents : Text) (c : k.Conn)
    → v.interrupts c + length contents + 8 ≤ fuel
    → Done v
        (send_framed_stream k fuel (in_stream contents) c)
        c
        tt
        []
        (stream_head (length contents) ++ contents)
unfolding send_framed_stream
send_framed_stream-Done {k} v reliable fuel contents c h =
    Done-bind v (write_u64 k fuel (length contents)) _ c tt tt [] [] (stream_head (length contents))
      contents head
      (send_chunks-Done v reliable fuel _ fuel contents (write_u64 k fuel (length contents) c).1
        (omega arith) (omega (arith, head.patience)))
  where
    head : Done v (write_u64 k fuel (length contents) c) c tt [] (stream_head (length contents))
    head = write_u64-Done v reliable fuel (length contents) c (omega arith)

-- A receiver that finds a stream with its length in front writes the bytes of the stream.
pub receive_framed_stream-arrived :
    {l : Socket} (w : View l) (o : OutStream) (storing : IsStoring o) (fuel : ℕ)
    (contents rest : Text) (d : l.Conn) (out : o.Out)
    → IsReliable w
    → length contents < 2 ^ 64
    → w.interrupts d + length contents + 8 ≤ fuel
    → w.stream d ≡ stream_head (length contents) ++ (contents ++ rest)
    → ((receive_framed_stream l fuel o (d, out)).0 ≡ ok tt)
      × (storing.contents (receive_framed_stream l fuel o (d, out)).1.1
          ≡ storing.contents out ++ contents)
      × (w.stream (receive_framed_stream l fuel o (d, out)).1.0 ≡ rest)
unfolding receive_framed_stream
receive_framed_stream-arrived {l} w o storing fuel contents rest d out rw' small fd arrived = (
  rw (head.returned, receive_framed_stream) stored.returned,
  rw (head.returned, receive_framed_stream) stored.written,
  rw (head.returned, receive_framed_stream) left,
)
  where
    head : Done w (read_u64 l fuel d) d (length contents) (stream_head (length contents)) []
    head =
        read_u64-Done w rw' fuel (length contents) (contents ++ rest) d small arrived (omega arith)

    left_over : w.stream (read_u64 l fuel d).1 ≡ contents ++ rest
    left_over = next_streamed w rw' fuel d (stream_head (length contents)) _ [] arrived head

    stored :
        Stored w rw' fuel storing
          (receive_chunks l fuel o fuel (length contents) ((read_u64 l fuel d).1, out))
          (read_u64 l fuel d).1
          out
          contents
    stored =
        receive_chunks-Stored w rw' fuel storing fuel contents rest (read_u64 l fuel d).1 out
          left_over (omega arith) (omega (arith, head.patience))

    left :
        w.stream (receive_chunks l fuel o fuel (length contents) ((read_u64 l fuel d).1, out)).1.0
        ≡ rest
    left = append_cancel contents _ rest (sym stored.streamed ∙ left_over)

-- A message of at most `max_control_message_bytes` is sent whole, and a receiver that finds on its
-- stream what the sender put out, with anything behind it, returns that message and leaves the
-- rest.
pub receive_framed_string-send_framed_string :
    {k l : Socket} (v : View k) (w : View l) (fuel : ℕ) (message rest : Text) (c : k.Conn)
    (d : l.Conn)
    → IsReliable v
    → IsReliable w
    → length message ≤ max_control_message_bytes
    → v.interrupts c + length message + 4 ≤ fuel
    → w.interrupts d + length message + 4 ≤ fuel
    → v.output (send_framed_string k fuel message c).1 ++ rest ≡ v.output c ++ w.stream d
    → ((send_framed_string k fuel message c).0 ≡ ok tt)
      × ((receive_framed_string l fuel d).0 ≡ ok message)
      × (w.stream (receive_framed_string l fuel d).1 ≡ rest)
receive_framed_string-send_framed_string {k} {l} v w fuel message rest c d rv rw' small fc fd wire =
    (
      sent.returned,
      received.returned,
      next_streamed w rw' fuel d (frame message) rest [] arrived received,
    )
  where
    sent : Done v (send_framed_string k fuel message c) c tt [] (frame message)
    sent = send_framed_string-Done v rv fuel message c (omega arith) fc

    arrived : w.stream d ≡ frame message ++ rest
    arrived = append_cancel (v.output c) (w.stream d) (frame message ++ rest) (
        sym wire
        ∙ (ap (λ t. t ++ rest) sent.sent_out ∙ append_assoc (v.output c) (frame message) rest))

    received : Done w (receive_framed_string l fuel d) d message (frame message) []
    received = receive_framed_string-Done w rw' fuel message rest d small arrived fd

-- A stream whose end position is its length is sent whole, and a receiver that finds on its
-- connection what the sender put out, with anything behind it, writes exactly the stream's bytes
-- to an output stream that takes every write, and leaves the rest.
pub receive_framed_stream-send_framed_stream :
    {k l : Socket} (v : View k) (w : View l) (o : OutStream) (storing : IsStoring o) (fuel : ℕ)
    (contents rest : Text) (c : k.Conn) (d : l.Conn) (out : o.Out)
    → IsReliable v
    → IsReliable w
    → length contents < 2 ^ 64
    → v.interrupts c + length contents + 8 ≤ fuel
    → w.interrupts d + length contents + 8 ≤ fuel
    → v.output (send_framed_stream k fuel (in_stream contents) c).1 ++ rest
      ≡ v.output c ++ w.stream d
    → ((send_framed_stream k fuel (in_stream contents) c).0 ≡ ok tt)
      × ((receive_framed_stream l fuel o (d, out)).0 ≡ ok tt)
      × (storing.contents (receive_framed_stream l fuel o (d, out)).1.1
          ≡ storing.contents out ++ contents)
      × (w.stream (receive_framed_stream l fuel o (d, out)).1.0 ≡ rest)
receive_framed_stream-send_framed_stream {k} {l} v w o storing fuel contents rest c d out rv rw'
      small fc fd wire =
    let (returned, written, left) =
      receive_framed_stream-arrived w o storing fuel contents rest d out rw' small fd arrived in
    (sent.returned, returned, written, left)
  where
    sent :
        Done v
          (send_framed_stream k fuel (in_stream contents) c)
          c
          tt
          []
          (stream_head (length contents) ++ contents)
    sent = send_framed_stream-Done v rv fuel contents c fc

    arrived : w.stream d ≡ stream_head (length contents) ++ (contents ++ rest)
    arrived =
        append_cancel (v.output c) (w.stream d)
          ((stream_head (length contents) ++ contents) ++ rest)
          (sym wire ∙ (ap (λ t. t ++ rest) sent.sent_out ∙ append_assoc (v.output c) _ rest))
        ∙ append_assoc (stream_head (length contents)) contents rest
