-- ===== src/Sha256/Padding.antt =====
-- SHA-256 of a whole message, as FIPS 180-4 describes it: the message is padded to whole blocks of
-- 64 bytes, and each block is compressed into the words.
use mathlib.Core.List.{foldl}
use stmanager.Prelude.{
  ℕ, zero, suc, ◌+◌, ◌-◌, ◌*◌, ◌/◌, ◌%◌, ◌^◌, Text, length, take, drop, replicate, List, [], ◌∷◌,
  ◌++◌, ◌≡◌, ap, arith, append_assoc, length-append, length-replicate, take-append_left,
  drop-append_left, subst,
}
use stmanager.Sha256.Compress.{compress}
use stmanager.Sha256.Context.{initial_words, hash_bytes}
use stmanager.Sha256.Buffer.{length_bytes}

-- The fewest zero bytes that, with the byte 0x80 and the length, fill the last block.
abbrev pub zero_count : ℕ → ℕ
zero_count n = (119 - n % 64) % 64

unfoldable pub padded : Text → Text
padded message =
    message
    ++ 0x80
      ∷ (replicate (zero_count (length message)) 0 ++ length_bytes (8 * length message % 2 ^ 64))

unfoldable pub blocks : ℕ → Text → List Text
blocks zero text = []
blocks (suc n) text = take 64 text ∷ blocks n (drop 64 text)

unfoldable pub digest : Text → Text
digest message =
    hash_bytes
      (foldl compress initial_words (blocks (length (padded message) / 64) (padded message)))

abbrev pub flat : List Text → Text
flat [] = []
flat (b ∷ bs) = b ++ flat bs

abbrev pub AllBlocks : List Text → Type 0
AllBlocks [] = Unit
AllBlocks (b ∷ bs) = (length b ≡ 64) × AllBlocks bs

pub length-flat : (full : List Text) → AllBlocks full → length (flat full) ≡ 64 * length full
length-flat [] h = omega arith
length-flat (b ∷ bs) h = omega (arith, length-append b (flat bs), length-flat bs h.1, h.0)

take_block : (b rest : Text) → length b ≡ 64 → take 64 (b ++ rest) ≡ b
take_block b rest h = subst (λ (n : ℕ). take n (b ++ rest) ≡ b) h (take-append_left b rest)

drop_block : (b rest : Text) → length b ≡ 64 → drop 64 (b ++ rest) ≡ rest
drop_block b rest h = subst (λ (n : ℕ). drop n (b ++ rest) ≡ rest) h (drop-append_left b rest)

pub blocks-flat :
    (full : List Text) (n j : ℕ) (rest : Text)
    → n ≡ length full + j
    → AllBlocks full
    → blocks n (flat full ++ rest) ≡ full ++ blocks j rest
unfolding blocks
blocks-flat [] n j rest e h = ap (λ k. blocks k rest) (omega arith)
blocks-flat (b ∷ bs) zero j rest e h = absurd (omega arith)
blocks-flat (b ∷ bs) (suc n) j rest e h =
    rw
      (
        append_assoc b (flat bs) rest,
        take_block b (flat bs ++ rest) h.0,
        drop_block b (flat bs ++ rest) h.0,
      )
      (ap (λ l. b ∷ l) (blocks-flat bs n j rest (omega arith) h.1))

pub length-padded : (m : Text) → length (padded m) ≡ length m + zero_count (length m) + 9
unfolding padded
length-padded m = omega (
  arith,
  length-append m
      (0x80 ∷ (replicate (zero_count (length m)) 0 ++ length_bytes (8 * length m % 2 ^ 64))),
  length-append (replicate (zero_count (length m)) 0) (length_bytes (8 * length m % 2 ^ 64)),
  length-replicate (zero_count (length m)) (◌+◌ 0 0),
)
