-- ===== src/Wire/Runs.antt =====
-- The runs of the functions of src/tcp_transport.cpp over a reliable connection: what each returns,
-- takes off the stream and puts out.
use Prim.Native.Nat.{bit_or}
use stmanager.Prelude.{
  ℕ, ◌+◌, ◌-◌, ◌*◌, ◌^◌, ◌/◌, ◌%◌, ◌≤◌, ◌<◌, Text, ltb, length, some, [], ◌++◌, ◌≡◌, sym, subst,
  ◌∙◌, arith, append_assoc, not_lt→ltb, codes, if◌then◌else◌,
}
use stmanager.Status.{Result, ok, fail, sync_protocol_error}
use stmanager.Wire.Socket.{Socket, View, IsReliable}
use stmanager.Wire.Transfer.{write_all, read_all}
use stmanager.Wire.Words.{
  network_bytes, host_value, write_u32, read_u32, write_u64, read_u64, host_value-network_bytes,
  join_halves,
}
use stmanager.Wire.Frames.{
  max_control_message_bytes, InStream, send_framed_string, receive_framed_string,
}
use stmanager.Wire.Delivery.{
  Done, Done-bind, Done-pure, write_all-Done, read_all-Done, append_cancel,
}

-- A message with its length in front.
abbrev pub frame : Text → Text
frame message = network_bytes (length message) ++ message

module _ {k : Socket} (v : View k) (reliable : IsReliable v) (fuel : ℕ) where
  write_u32-Done :
      (value : ℕ) (c : k.Conn)
      → v.interrupts c + 4 ≤ fuel
      → Done v (write_u32 k fuel value c) c tt [] (network_bytes value)
  unfolding write_u32 network_bytes
  write_u32-Done value c h = write_all-Done v reliable fuel (network_bytes value) c (omega arith)

  pub read_u32-Done :
      (value : ℕ) (rest : Text) (c : k.Conn)
      → value < 2 ^ 32
      → v.stream c ≡ network_bytes value ++ rest
      → v.interrupts c + 4 ≤ fuel
      → Done v (read_u32 k fuel c) c value (network_bytes value) []
  unfolding read_u32 network_bytes
  read_u32-Done value rest c small s h =
      Done-bind v (read_all k fuel 4) (λ b. λ d. (ok (host_value b), d)) c (network_bytes value)
        value (network_bytes value) [] [] []
        (read_all-Done v reliable fuel (network_bytes value) rest c s (omega arith))
        (subst
          (λ (x : ℕ).
            Done v (ok (host_value (network_bytes value)), (read_all k fuel 4 c).1)
              (read_all k fuel 4 c).1 x [] [])
          (host_value-network_bytes value small)
          (Done-pure v (read_all k fuel 4 c).1 (host_value (network_bytes value))))

  -- What the stream gives next, once `moved` is read.
  pub next_streamed :
      {A : Type 0} {r : Result A × k.Conn} {value : A} (c : k.Conn) (moved next sent : Text)
      → v.stream c ≡ moved ++ next
      → Done v r c value moved sent
      → v.stream r.1 ≡ next
  next_streamed {r} c moved next sent s d =
      append_cancel moved (v.stream r.1) next (sym d.streamed ∙ s)

  pub send_framed_string-Done :
      (message : Text) (c : k.Conn)
      → length message ≤ 2 ^ 32 - 1
      → v.interrupts c + length message + 4 ≤ fuel
      → Done v (send_framed_string k fuel message c) c tt [] (frame message)
  unfolding send_framed_string
  send_framed_string-Done message c small h = rw (not_lt→ltb (2 ^ 32 - 1) (length message) small) (
      Done-bind v (write_u32 k fuel (length message)) (λ _. write_all k fuel message) c tt tt [] []
        (network_bytes (length message)) message head
        (write_all-Done v reliable fuel message (write_u32 k fuel (length message) c).1
          (omega (arith, head.patience))))
    where
      head : Done v (write_u32 k fuel (length message) c) c tt [] (network_bytes (length message))
      head = write_u32-Done (length message) c (omega arith)

  pub receive_framed_string-Done :
      (message rest : Text) (c : k.Conn)
      → length message ≤ max_control_message_bytes
      → v.stream c ≡ frame message ++ rest
      → v.interrupts c + length message + 4 ≤ fuel
      → Done v (receive_framed_string k fuel c) c message (frame message) []
  unfolding receive_framed_string
  receive_framed_string-Done message rest c small s h =
      Done-bind v (read_u32 k fuel)
        (λ size.
          if ltb max_control_message_bytes size
          then (λ d. (fail sync_protocol_error (codes "Control message too large"), d))
          else read_all k fuel size)
        c (length message) message (network_bytes (length message)) message [] [] head
        (rw (not_lt→ltb max_control_message_bytes (length message) small) (
          read_all-Done v reliable fuel message rest (read_u32 k fuel c).1
            (next_streamed c (network_bytes (length message)) (message ++ rest) [] whole head)
            (omega (arith, head.patience))))
    where
      whole : v.stream c ≡ network_bytes (length message) ++ (message ++ rest)
      whole = s ∙ append_assoc (network_bytes (length message)) message rest

      head : Done v (read_u32 k fuel c) c (length message) (network_bytes (length message)) []
      head = read_u32-Done (length message) (message ++ rest) c (omega arith) whole (omega arith)

-- A stream over some bytes, which can tell their number.
abbrev pub in_stream : Text → InStream
in_stream contents = record { end_position = some (length contents); contents = contents }

pub stream_head : ℕ → Text
stream_head size = network_bytes (size / 2 ^ 32 % 2 ^ 32) ++ network_bytes (size % 2 ^ 32)

module _ {k : Socket} (v : View k) (reliable : IsReliable v) (fuel : ℕ) where
  pub write_u64-Done :
      (value : ℕ) (c : k.Conn)
      → v.interrupts c + 8 ≤ fuel
      → Done v (write_u64 k fuel value c) c tt [] (stream_head value)
  unfolding write_u64 stream_head
  write_u64-Done value c h =
      Done-bind v (write_u32 k fuel (value / 2 ^ 32 % 2 ^ 32))
        (λ _. write_u32 k fuel (value % 2 ^ 32)) c tt tt [] []
        (network_bytes (value / 2 ^ 32 % 2 ^ 32)) (network_bytes (value % 2 ^ 32)) high
        (write_u32-Done v reliable fuel (value % 2 ^ 32) _ (omega (arith, high.patience)))
    where
      high :
          Done v
            (write_u32 k fuel (value / 2 ^ 32 % 2 ^ 32) c)
            c
            tt
            []
            (network_bytes (value / 2 ^ 32 % 2 ^ 32))
      high = write_u32-Done v reliable fuel (value / 2 ^ 32 % 2 ^ 32) c (omega arith)

  pub read_u64-Done :
      (value : ℕ) (rest : Text) (c : k.Conn)
      → value < 2 ^ 64
      → v.stream c ≡ stream_head value ++ rest
      → v.interrupts c + 8 ≤ fuel
      → Done v (read_u64 k fuel c) c value (stream_head value) []
  unfolding read_u64 stream_head network_bytes
  read_u64-Done value rest c small s h =
      Done-bind v (read_u32 k fuel) _ c (value / 2 ^ 32 % 2 ^ 32) value
        (network_bytes (value / 2 ^ 32 % 2 ^ 32)) (network_bytes (value % 2 ^ 32)) [] [] high
        (Done-bind v (read_u32 k fuel) _ (read_u32 k fuel c).1 (value % 2 ^ 32) value
          (network_bytes (value % 2 ^ 32)) [] [] [] low
          (subst
            (λ (x : ℕ).
              Done v (ok (bit_or (value / 2 ^ 32 % 2 ^ 32 * 2 ^ 32) (value % 2 ^ 32)), last) last x
                [] [])
            (join_halves value small) (Done-pure v last _)))
    where
      whole :
          v.stream c
          ≡ network_bytes (value / 2 ^ 32 % 2 ^ 32) ++ (network_bytes (value % 2 ^ 32) ++ rest)
      whole =
          s
          ∙ append_assoc (network_bytes (value / 2 ^ 32 % 2 ^ 32)) (network_bytes (value % 2 ^ 32))
              rest

      high :
          Done v
            (read_u32 k fuel c)
            c
            (value / 2 ^ 32 % 2 ^ 32)
            (network_bytes (value / 2 ^ 32 % 2 ^ 32))
            []
      high = read_u32-Done v reliable fuel _ _ c (omega arith) whole (omega arith)

      low :
          Done v
            (read_u32 k fuel (read_u32 k fuel c).1)
            (read_u32 k fuel c).1
            (value % 2 ^ 32)
            (network_bytes (value % 2 ^ 32))
            []
      low =
          read_u32-Done v reliable fuel _ rest (read_u32 k fuel c).1 (omega arith)
            (next_streamed v reliable fuel c _ _ [] whole high) (omega (arith, high.patience))

      last : k.Conn
      last = (read_u32 k fuel (read_u32 k fuel c).1).1
