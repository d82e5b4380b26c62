-- ===== src/Wire/Frames.antt =====
-- src/tcp_transport.cpp: messages and streams with their length in front, and the class
-- TcpSyncTransport around them. A failure of memory in `resize` is outside the model.
use stmanager.Prelude.{
  ℕ, zero, suc, ◌-◌, ◌^◌, ◌*◌, min, Text, codes, ltb, length, take, drop, Option, none, some, [],
  ◌∷◌, ◌++◌, if◌then◌else◌,
}
use stmanager.Status.{
  Result, ok, err, looping, threw, Exec, pure, lift, throw, ◌>>=◌, ◌>>◌, io_error,
  sync_protocol_error,
}
use stmanager.Wire.Socket.{Socket}
use stmanager.Wire.Transfer.{write_all, read_all}
use stmanager.Wire.Words.{write_u32, read_u32, write_u64, read_u64}

abbrev pub max_control_message_bytes : ℕ
max_control_message_bytes = 1024 * 1024

-- The chunks of the streams, and the size of their buffer.
abbrev pub buffer_size : ℕ
buffer_size = 8192

-- An input stream: what `tellg` says at its end, if anything, and what reading it gives.
pub record InStream : Type 0 where
  pub end_position : Option ℕ
  pub contents : Text

-- The stream that a download is written to, with the three ways in which a write can go.
pub data Written : Type 0 where
  good bad : Written
  raised : Text → Written

pub record OutStream : Type 1 where
  pub Out : Type 0
  pub write : Out → Text → Written × Out

module _ (k : Socket) (fuel : ℕ) where
  unfoldable pub send_framed_string : Text → Exec k.Conn (Unit {0})
  send_framed_string message =
      if ltb (2 ^ 32 - 1) (length message)
      then throw io_error (codes "Message is too large")
      else write_u32 k fuel (length message) >> write_all k fuel message

  unfoldable pub receive_framed_string : Exec k.Conn Text
  receive_framed_string = do
    message_size ← read_u32 k fuel
    if ltb max_control_message_bytes message_size
        then throw sync_protocol_error (codes "Control message too large")
        else read_all k fuel message_size

  -- `left` is what the stream still gives, the number what is left of `stream_size`.
  unfoldable pub send_chunks : Text → ℕ → Text → ℕ → Exec k.Conn (Unit {0})
  send_chunks early_end rounds left zero = pure tt
  send_chunks early_end zero left (suc n) = lift looping
  send_chunks early_end (suc rounds) [] (suc n) = throw io_error early_end
  send_chunks early_end (suc rounds) (b ∷ bs) (suc n) =
      let chunk = take (min (suc n) buffer_size) (b ∷ bs) in
      write_all k fuel chunk
      >> send_chunks early_end rounds (drop (min (suc n) buffer_size) (b ∷ bs))
          (suc n - length chunk)

  unfoldable pub send_framed_stream : InStream → Exec k.Conn (Unit {0})
  unfolding send_chunks
  send_framed_stream stream = elim stream.end_position [
    | none ↦ throw io_error (codes "Failed to determine stream length")
    | some stream_size ↦
        write_u64 k fuel stream_size
        >> send_chunks (codes "Unexpected end of stream during send") fuel stream.contents
            stream_size
  ]

  module _ (o : OutStream) where
    abbrev pub after_write :
        Written → Exec (k.Conn × o.Out) (Unit {0}) → Exec (k.Conn × o.Out) (Unit {0})
    after_write good rest = rest
    after_write bad rest = throw io_error (codes "Failed writing received stream data")
    after_write (raised what) rest =
        throw io_error (codes "stage=client.protocol.receive_framed_stream.write; " ++ what)

    -- The write of a chunk that was read, and the rounds after it.
    unfoldable pub store_chunk :
        Result Text → Exec (k.Conn × o.Out) (Unit {0}) → Exec (k.Conn × o.Out) (Unit {0})
    store_chunk (ok chunk) rest (c, out) =
        let (written, out') = o.write out chunk in after_write written rest (c, out')
    store_chunk (err e) rest s = (err e, s)
    store_chunk looping rest s = (looping, s)
    store_chunk (threw what) rest s = (threw what, s)

    -- The number is `stream_size - received_size`.
    unfoldable pub receive_chunks : ℕ → ℕ → Exec (k.Conn × o.Out) (Unit {0})
    receive_chunks rounds zero s = (ok tt, s)
    receive_chunks zero (suc n) s = (looping, s)
    receive_chunks (suc rounds) (suc n) (c, out) =
        let (data_read, c') = read_all k fuel (min (suc n) buffer_size) c in
        store_chunk data_read (receive_chunks rounds (suc n - min (suc n) buffer_size)) (c', out)

    unfoldable pub receive_framed_stream : Exec (k.Conn × o.Out) (Unit {0})
    unfolding receive_chunks store_chunk
    receive_framed_stream (c, out) =
        let (size_read, c') = read_u64 k fuel c in
        elim size_read [
          | ok stream_size ↦ receive_chunks fuel stream_size (c', out)
          | err e ↦ (err e, (c', out))
          | looping ↦ (looping, (c', out))
          | threw what ↦ (threw what, (c', out))
        ]
