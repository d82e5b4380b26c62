-- ===== src/Wire/Transfer.antt =====
-- src/tcp_transport.cpp: the loops around `send` and `recv`. src/sync_server.cpp has the same
-- loops once more. The fuel bounds the calls that one loop makes.
use stmanager.Prelude.{ℕ, zero, suc, ◌-◌, Text, codes, length, drop, [], ◌∷◌, ◌++◌}
use stmanager.Status.{ok, fail, looping, Exec, io_error}
use stmanager.Wire.Socket.{Received, bytes, Sent, taken, Socket}

module _ (k : Socket) where
  -- What is left of the data is the argument; `sent_size` is how far it is into the whole.
  unfoldable pub write_all : ℕ → Text → Exec k.Conn (Unit {0})
  write_all fuel [] c = (ok tt, c)
  write_all zero (b ∷ bs) c = (looping, c)
  write_all (suc fuel) (b ∷ bs) c =
      let (answer, c') = k.send c (b ∷ bs) in
      elim answer [
        | Sent.interrupted ↦ write_all fuel (b ∷ bs) c'
        | Sent.broken e ↦ (fail io_error (codes "Socket write failed: " ++ e), c')
        | taken zero ↦ (fail io_error (codes "Socket closed during write"), c')
        | taken (suc n) ↦ write_all fuel (drop n bs) c'
      ]

  -- `received` is the filled part of the buffer; the number is `size - received_size`.
  unfoldable pub read_loop : ℕ → Text → ℕ → Exec k.Conn Text
  read_loop fuel received zero c = (ok received, c)
  read_loop zero received (suc size) c = (looping, c)
  read_loop (suc fuel) received (suc size) c =
      let (answer, c') = k.recv c (suc size) in
      elim answer [
        | Received.interrupted ↦ read_loop fuel received (suc size) c'
        | Received.broken e ↦ (fail io_error (codes "Socket read failed: " ++ e), c')
        | bytes [] ↦ (fail io_error (codes "Socket closed during read"), c')
        | bytes (b ∷ bs) ↦ read_loop fuel (received ++ b ∷ bs) (size - length bs) c'
      ]

  unfoldable pub read_all : ℕ → ℕ → Exec k.Conn Text
  unfolding read_loop
  read_all fuel size = read_loop fuel [] size
