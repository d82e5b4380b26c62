-- ===== src/Wire/Socket.antt =====
-- The calls `recv` and `send` of the operating system, over an unknown state of the connection.
use stmanager.Prelude.{ℕ, suc, Text, length, drop, ◌++◌, ◌≡◌, ◌≤◌, ◌<◌}

-- The answer of `recv`: the bytes, of which none are left once the peer has closed; or -1, with
-- `errno` at EINTR, or at another value, with its text.
pub data Received : Type 0 where
  bytes : Text → Received
  interrupted : Received
  broken : Text → Received

-- The answer of `send`, with the count of the bytes that were taken.
pub data Sent : Type 0 where
  taken : ℕ → Sent
  interrupted : Sent
  broken : Text → Sent

pub record Socket : Type 1 where
  pub Conn : Type 0
  pub recv : Conn → ℕ → Received × Conn
  pub send : Conn → Text → Sent × Conn

-- How a connection is seen from outside: the bytes that are still to be received, those that were
-- sent, and how many calls will still be interrupted.
pub record View (k : Socket) : Type 0 where
  pub stream : k.Conn → Text
  pub output : k.Conn → Text
  pub interrupts : k.Conn → ℕ

module _ {k : Socket} (v : View k) (c : k.Conn) where
  -- `recv` asked for `n` bytes hands over some of those to come, at least one and at most `n`.
  abbrev pub IsGoodReceive : ℕ → Received → k.Conn → Type 0
  IsGoodReceive n (bytes b) c' =
      (0 < length b)
      × (length b ≤ n)
      × (v.stream c ≡ b ++ v.stream c')
      × (v.interrupts c' ≤ v.interrupts c)
      × (v.output c' ≡ v.output c)
  IsGoodReceive n Received.interrupted c' =
      (v.stream c ≡ v.stream c')
      × (suc (v.interrupts c') ≤ v.interrupts c)
      × (v.output c' ≡ v.output c)
  IsGoodReceive n (Received.broken e) c' = ⊥

  -- `send` takes some first bytes of what it was given, at least one.
  abbrev pub IsGoodSend : Text → Sent → k.Conn → Type 0
  IsGoodSend b (taken n) c' =
      (0 < n)
      × (n ≤ length b)
      × (v.output c' ++ drop n b ≡ v.output c ++ b)
      × (v.interrupts c' ≤ v.interrupts c)
      × (v.stream c' ≡ v.stream c)
  IsGoodSend b Sent.interrupted c' =
      (v.output c' ≡ v.output c)
      × (suc (v.interrupts c') ≤ v.interrupts c)
      × (v.stream c' ≡ v.stream c)
  IsGoodSend b (Sent.broken e) c' = ⊥

-- A connection that does not break: TCP delivers in order, in pieces of any size.
pub record IsReliable {k : Socket} (v : View k) : Type 0 where
  pub receives :
      (c : k.Conn) (n : ℕ)
      → 0 < n
      → 0 < length (v.stream c)
      → IsGoodReceive v c n (k.recv c n).0 (k.recv c n).1
  pub sends :
      (c : k.Conn) (b : Text) → 0 < length b → IsGoodSend v c b (k.send c b).0 (k.send c b).1
