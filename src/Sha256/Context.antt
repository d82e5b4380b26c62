-- ===== src/Sha256/Context.antt =====
-- src/raze_update.cpp: `Sha256Context`, its constructor, `update` and `final`.
use stmanager.Prelude.{
  ℕ, zero, suc, ◌+◌, ◌-◌, ◌*◌, ◌/◌, ◌%◌, ◌^◌, Text, ltb, ◌==◌, set, replicate, [], ◌∷◌, ◌++◌,
  if◌then◌else◌,
}
use stmanager.Sha256.Compress.{Words, compress}

pub record Sha256Context : Type 0 where
  pub data_ : Text
  pub data_len : ℕ
  pub bit_len : ℕ
  pub state : Words

abbrev pub initial_words : Words
initial_words = record {
  a = 0x6a09e667;
  b = 0xbb67ae85;
  c = 0x3c6ef372;
  d = 0xa54ff53a;
  e = 0x510e527f;
  f = 0x9b05688c;
  g = 0x1f83d9ab;
  h = 0x5be0cd19;
}

unfoldable pub new_context : Sha256Context
new_context = record { data_ = replicate 64 0; data_len = 0; bit_len = 0; state = initial_words }

unfoldable pub transform : Sha256Context → Sha256Context
transform s = record s { state = compress s.state s.data_ }

-- The body of the loop of `update`.
unfoldable pub update_byte : Sha256Context → ℕ → Sha256Context
unfolding transform
update_byte s byte =
    let filled = record s { data_ = set s.data_ s.data_len byte; data_len = s.data_len + 1 } in
    if filled.data_len == 64
    then record (transform filled) { bit_len = (filled.bit_len + 512) % 2 ^ 64; data_len = 0 }
    else filled

unfoldable pub update : Sha256Context → Text → Sha256Context
update s [] = s
update s (byte ∷ bytes) = update (update_byte s byte) bytes

-- `count` rounds of `data_[index++] = 0x00`.
unfoldable pub zero_fill : ℕ → ℕ → Text → Text
zero_fill zero index data_ = data_
zero_fill (suc count) index data_ = zero_fill count (index + 1) (set data_ index 0)

-- The padding in `final`, up to the place of the length.
unfoldable pub pad_context : Sha256Context → Sha256Context
unfolding zero_fill transform
pad_context s =
    let marked = set s.data_ s.data_len 0x80 in
    if ltb s.data_len 56
    then record s { data_ = zero_fill (56 - (s.data_len + 1)) (s.data_len + 1) marked }
    else (let full = record s {
      data_ = zero_fill (64 - (s.data_len + 1)) (s.data_len + 1) marked;
    } in
        record (transform full) { data_ = zero_fill 56 0 full.data_ })

-- The eight assignments to `data_[63]` down to `data_[56]`.
unfoldable pub put_length : ℕ → Text → Text
put_length n data_ =
    let d63 = set data_ 63 (n % 256) in
    let d62 = set d63 62 (n / 2 ^ 8 % 256) in
    let d61 = set d62 61 (n / 2 ^ 16 % 256) in
    let d60 = set d61 60 (n / 2 ^ 24 % 256) in
    let d59 = set d60 59 (n / 2 ^ 32 % 256) in
    let d58 = set d59 58 (n / 2 ^ 40 % 256) in
    let d57 = set d58 57 (n / 2 ^ 48 % 256) in set d57 56 (n / 2 ^ 56 % 256)

word_bytes : ℕ → Text
word_bytes x = x / 2 ^ 24 % 256 ∷ x / 2 ^ 16 % 256 ∷ x / 2 ^ 8 % 256 ∷ x % 256 ∷ []

-- `hash[index + state_index * 4]` is byte `index` of word `state_index`, the highest first.
unfoldable pub hash_bytes : Words → Text
unfolding word_bytes
hash_bytes w =
    word_bytes w.a
    ++ (word_bytes w.b
        ++ (word_bytes w.c
            ++ (word_bytes w.d
                ++ (word_bytes w.e ++ (word_bytes w.f ++ (word_bytes w.g ++ word_bytes w.h))))))

-- `final`: the hash that it leaves.
unfoldable pub final_hash : Sha256Context → Text
unfolding pad_context put_length transform hash_bytes
final_hash s =
    let padded = pad_context s in
    let bit_len = (padded.bit_len + padded.data_len * 8) % 2 ^ 64 in
    let last = record padded { bit_len = bit_len; data_ = put_length bit_len padded.data_ } in
    hash_bytes (transform last).state
