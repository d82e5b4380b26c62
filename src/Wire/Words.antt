-- ===== src/Wire/Words.antt =====
-- src/tcp_transport.cpp: `write_u32`, `read_u32`, `write_u64` and `read_u64`. The bytes of
-- `htonl(value)` in memory are those of the value, the highest first, on every machine.
use Prim.Native.Nat.{bit_or}
use stmanager.Prelude.{ℕ, ◌+◌, ◌*◌, ◌/◌, ◌%◌, ◌^◌, ◌<◌, Text, [], ◌∷◌, get_or, ◌≡◌, arith}
use stmanager.Prelude.Bits.{bit_or_shifted}
use stmanager.Status.{Exec, pure, ◌>>=◌, ◌>>◌}
use stmanager.Wire.Socket.{Socket}
use stmanager.Wire.Transfer.{write_all, read_all}

-- `htonl`, and the bytes of its value as they lie in memory.
unfoldable pub network_bytes : ℕ → Text
network_bytes value =
    value / 2 ^ 24 % 256 ∷ value / 2 ^ 16 % 256 ∷ value / 2 ^ 8 % 256 ∷ value % 256 ∷ []

-- `ntohl` of four bytes in memory.
unfoldable pub host_value : Text → ℕ
host_value b = get_or b 0 0 * 2 ^ 24 + get_or b 1 0 * 2 ^ 16 + get_or b 2 0 * 2 ^ 8 + get_or b 3 0

module _ (k : Socket) (fuel : ℕ) where
  unfoldable pub write_u32 : ℕ → Exec k.Conn (Unit {0})
  write_u32 value = write_all k fuel (network_bytes value)

  unfoldable pub read_u32 : Exec k.Conn ℕ
  read_u32 = do b ← read_all k fuel 4; pure (host_value b)

  unfoldable pub write_u64 : ℕ → Exec k.Conn (Unit {0})
  write_u64 value = write_u32 (value / 2 ^ 32 % 2 ^ 32) >> write_u32 (value % 2 ^ 32)

  unfoldable pub read_u64 : Exec k.Conn ℕ
  read_u64 = do high ← read_u32; low ← read_u32; pure (bit_or (high * 2 ^ 32) low)

pub host_value-network_bytes :
    (value : ℕ) → value < 2 ^ 32 → host_value (network_bytes value) ≡ value
unfolding host_value network_bytes
host_value-network_bytes value h = omega arith

pub join_halves :
    (value : ℕ)
    → value < 2 ^ 64
    → bit_or (value / 2 ^ 32 % 2 ^ 32 * 2 ^ 32) (value % 2 ^ 32) ≡ value
join_halves value h =
    omega (arith, bit_or_shifted 32 (value / 2 ^ 32 % 2 ^ 32) (value % 2 ^ 32) (omega arith))
