-- ===== src/Sha256/Compress.antt =====
-- src/raze_update.cpp: the macros of SHA-256 and `Sha256Context::transform`. A `uint32_t` is a
-- number below 2 ^ 32; sums wrap around.
use Prim.Native.Nat.{bit_and, bit_or, bit_xor}
use stmanager.Prelude.{
  ℕ, zero, suc, ◌+◌, ◌-◌, ◌*◌, ◌/◌, ◌%◌, ◌^◌, Text, get_or, length, List, [], ◌∷◌, ◌++◌,
}

abbrev pub wrap32 : ℕ → ℕ
wrap32 x = x % 2 ^ 32

shift_left : ℕ → ℕ → ℕ
shift_left x n = wrap32 (x * 2 ^ n)

shift_right : ℕ → ℕ → ℕ
shift_right x n = x / 2 ^ n

rotate_right : ℕ → ℕ → ℕ
rotate_right x n = bit_or (shift_right x n) (shift_left x (32 - n))

-- `~x`.
complement : ℕ → ℕ
complement x = 2 ^ 32 - 1 - x

choose : ℕ → ℕ → ℕ → ℕ
unfolding complement
choose x y z = bit_xor (bit_and x y) (bit_and (complement x) z)

majority : ℕ → ℕ → ℕ → ℕ
majority x y z = bit_xor (bit_xor (bit_and x y) (bit_and x z)) (bit_and y z)

big_sigma0 : ℕ → ℕ
big_sigma0 x = bit_xor (bit_xor (rotate_right x 2) (rotate_right x 13)) (rotate_right x 22)

big_sigma1 : ℕ → ℕ
big_sigma1 x = bit_xor (bit_xor (rotate_right x 6) (rotate_right x 11)) (rotate_right x 25)

small_sigma0 : ℕ → ℕ
small_sigma0 x = bit_xor (bit_xor (rotate_right x 7) (rotate_right x 18)) (shift_right x 3)

small_sigma1 : ℕ → ℕ
small_sigma1 x = bit_xor (bit_xor (rotate_right x 17) (rotate_right x 19)) (shift_right x 10)

-- `k[64]`.
abbrev round_constants : List ℕ
round_constants =
    0x428a2f98 ∷ 0x71374491 ∷ 0xb5c0fbcf ∷ 0xe9b5dba5 ∷ 0x3956c25b ∷ 0x59f111f1 ∷ 0x923f82a4
    ∷ 0xab1c5ed5 ∷ 0xd807aa98 ∷ 0x12835b01 ∷ 0x243185be ∷ 0x550c7dc3 ∷ 0x72be5d74 ∷ 0x80deb1fe
    ∷ 0x9bdc06a7 ∷ 0xc19bf174 ∷ 0xe49b69c1 ∷ 0xefbe4786 ∷ 0x0fc19dc6 ∷ 0x240ca1cc ∷ 0x2de92c6f
    ∷ 0x4a7484aa ∷ 0x5cb0a9dc ∷ 0x76f988da ∷ 0x983e5152 ∷ 0xa831c66d ∷ 0xb00327c8 ∷ 0xbf597fc7
    ∷ 0xc6e00bf3 ∷ 0xd5a79147 ∷ 0x06ca6351 ∷ 0x14292967 ∷ 0x27b70a85 ∷ 0x2e1b2138 ∷ 0x4d2c6dfc
    ∷ 0x53380d13 ∷ 0x650a7354 ∷ 0x766a0abb ∷ 0x81c2c92e ∷ 0x92722c85 ∷ 0xa2bfe8a1 ∷ 0xa81a664b
    ∷ 0xc24b8b70 ∷ 0xc76c51a3 ∷ 0xd192e819 ∷ 0xd6990624 ∷ 0xf40e3585 ∷ 0x106aa070 ∷ 0x19a4c116
    ∷ 0x1e376c08 ∷ 0x2748774c ∷ 0x34b0bcb5 ∷ 0x391c0cb3 ∷ 0x4ed8aa4a ∷ 0x5b9cca4f ∷ 0x682e6ff3
    ∷ 0x748f82ee ∷ 0x78a5636f ∷ 0x84c87814 ∷ 0x8cc70208 ∷ 0x90befffa ∷ 0xa4506ceb ∷ 0xbef9a3f7
    ∷ 0xc67178f2 ∷ []

-- The first loop: sixteen words of four bytes each. A shorter end of the block gives no word.
block_words : Text → List ℕ
block_words (p ∷ q ∷ r ∷ s ∷ rest) =
    bit_or (bit_or (bit_or (p * 2 ^ 24) (q * 2 ^ 16)) (r * 2 ^ 8)) s ∷ block_words rest
block_words _ = []

-- The second loop, `index` being the length of the list so far.
extend : ℕ → List ℕ → List ℕ
extend zero message = message
extend (suc n) message =
    let index = length message in
    let word = wrap32 (
      small_sigma1 (get_or message (index - 2) 0)
      + get_or message (index - 7) 0
      + small_sigma0 (get_or message (index - 15) 0)
      + get_or message (index - 16) 0) in
    extend n (message ++ word ∷ [])

-- The variables a to h, and the words of `state_`.
pub record Words : Type 0 where
  pub a : ℕ
  pub b : ℕ
  pub c : ℕ
  pub d : ℕ
  pub e : ℕ
  pub f : ℕ
  pub g : ℕ
  pub h : ℕ

-- The body of the third loop.
round : ℕ → ℕ → Words → Words
round constant word w =
    let t1 = wrap32 (w.h + big_sigma1 w.e + choose w.e w.f w.g + constant + word) in
    let t2 = wrap32 (big_sigma0 w.a + majority w.a w.b w.c) in
    record {
      a = wrap32 (t1 + t2);
      b = w.a;
      c = w.b;
      d = w.c;
      e = wrap32 (w.d + t1);
      f = w.e;
      g = w.f;
      h = w.g;
    }

rounds : List ℕ → List ℕ → Words → Words
rounds (constant ∷ constants) (word ∷ message) w = rounds constants message (round constant word w)
rounds _ _ w = w

-- `state_[i] += ...`.
add_words : Words → Words → Words
add_words s w = record {
  a = wrap32 (s.a + w.a);
  b = wrap32 (s.b + w.b);
  c = wrap32 (s.c + w.c);
  d = wrap32 (s.d + w.d);
  e = wrap32 (s.e + w.e);
  f = wrap32 (s.f + w.f);
  g = wrap32 (s.g + w.g);
  h = wrap32 (s.h + w.h);
}

unfoldable pub compress : Words → Text → Words
unfolding shift_left shift_right rotate_right complement choose majority big_sigma0 big_sigma1
    small_sigma0 small_sigma1 block_words extend round rounds add_words
compress state block =
    add_words state (rounds round_constants (extend 48 (block_words block)) state)
