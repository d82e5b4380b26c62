-- ===== src/Prelude/Bits.antt =====
-- `|` of a shifted field and a field that fits below it is their sum, at every width. The native
-- `bit_or` runs over binary digits with a fuel that its first argument gives.
use Prim.Native.Nat.{
  ℕ, zero, suc, ◌+◌, ◌*◌, ◌/◌, ◌%◌, ◌^◌, ◌≤◌, ◌<◌, max, bit_or, digits, bit_or-bitwise,
}
use mathlib.Core.Path.{◌≡◌, refl, ap}
use native.Mathlib.Nat.{pow-suc}
use native.Mathlib.Omega.{arith}

abbrev either : ℕ → ℕ → ℕ → ℕ
either fuel a b = digits (λ low. low) max fuel a b

-- Any two fuels that cover the first argument give one value.
either_enough : (f g a b : ℕ) → a ≤ f → a ≤ g → either f a b ≡ either g a b
either_enough zero zero zero b _ _ = refl
either_enough zero zero (suc a) b h _ = absurd (omega arith)
either_enough zero (suc g) zero b _ _ = refl
either_enough zero (suc g) (suc a) b h _ = absurd (omega arith)
either_enough (suc f) zero zero b _ _ = refl
either_enough (suc f) zero (suc a) b _ h = absurd (omega arith)
either_enough (suc f) (suc g) zero b _ _ = refl
either_enough (suc f) (suc g) (suc a) b h k =
    ap (λ (t : ℕ). t * 2 + max (suc a % 2) (b % 2))
      (either_enough f g (suc a / 2) (b / 2) (omega arith) (omega arith))

bit_or_halves : (a b : ℕ) → bit_or a b ≡ bit_or (a / 2) (b / 2) * 2 + max (a % 2) (b % 2)
bit_or_halves zero b = omega (arith, bit_or-bitwise 0 b, bit_or-bitwise 0 (b / 2))
bit_or_halves (suc a) b = omega (
  arith,
  bit_or-bitwise (suc a) b,
  bit_or-bitwise (suc a / 2) (b / 2),
  either_enough a (suc a / 2) (suc a / 2) (b / 2) (omega arith) (omega arith),
)

-- `fuel` bounds the first argument.
bit_or_none : (fuel a : ℕ) → a ≤ fuel → bit_or a 0 ≡ a
bit_or_none fuel zero h = refl
bit_or_none zero (suc a) h = absurd (omega arith)
bit_or_none (suc fuel) (suc a) h =
    omega (arith, bit_or_halves (suc a) 0, bit_or_none fuel (suc a / 2) (omega arith))

-- `(high << k) | low` where `low` has at most `k` bits.
pub bit_or_shifted : (k high low : ℕ) → low < 2 ^ k → bit_or (high * 2 ^ k) low ≡ high * 2 ^ k + low
bit_or_shifted zero high low h = ground (arith, bit_or_none high high)
bit_or_shifted (suc k) high low h = ground (
  arith,
  bit_or_halves (high * 2 ^ suc k) low,
  ap (λ (t : ℕ). high * t) (pow-suc 2 k),
  bit_or_shifted k high (low / 2),
)
