-- ===== src/Sha256/Absorb.antt =====
-- The invariant of `Sha256Context::update`: where the bytes that it was given are.
use mathlib.Core.List.{foldl, foldl-append}
use stmanager.Prelude.{
  ℕ, ◌+◌, ◌*◌, ◌%◌, ◌^◌, ◌<◌, Text, length, drop, replicate, set, List, [], ◌∷◌, ◌++◌, ◌≡◌, refl,
  sym, ap, ◌∙◌, arith, append_assoc, append-nil, length-append, subst, ◌==◌, ==_iff, ◌≢◌, false,
  Bool-cases, inl, inr,
}
use stmanager.Sha256.Compress.{compress}
use stmanager.Sha256.Context.{Sha256Context, initial_words, new_context, update_byte, update}
use stmanager.Sha256.Buffer.{set-append}
use stmanager.Sha256.Padding.{flat, AllBlocks}

-- What the context holds after the bytes `m`: the words are those of the blocks so far, and the
-- rest of `m` stands at the beginning of `data_`.
pub record Absorbed (s : Sha256Context) (m : Text) : Type 0 where
  pub full : List Text
  pub tail : Text
  pub junk : Text
  pub message : m ≡ flat full ++ tail
  pub whole : AllBlocks full
  pub buffer : s.data_ ≡ tail ++ junk
  pub size : length tail + length junk ≡ 64
  pub room : length tail < 64
  pub fill : s.data_len ≡ length tail
  pub count : s.bit_len ≡ 512 * length full % 2 ^ 64
  pub words : s.state ≡ foldl compress initial_words full

pub new_context-Absorbed : Absorbed new_context []
unfolding new_context
new_context-Absorbed = record {
  full = [];
  tail = [];
  junk = replicate 64 0;
  message = refl;
  whole = tt;
  buffer = refl;
  size = omega arith;
  room = omega arith;
  fill = refl;
  count = refl;
  words = refl;
}

flat-append : (xs : List Text) (b : Text) → flat (xs ++ b ∷ []) ≡ flat xs ++ b
flat-append [] b = append-nil b
flat-append (x ∷ xs) b = ap (λ t. x ++ t) (flat-append xs b) ∙ sym (append_assoc x (flat xs) b)

AllBlocks-append :
    (xs : List Text) (b : Text) → AllBlocks xs → length b ≡ 64 → AllBlocks (xs ++ b ∷ [])
AllBlocks-append [] b h e = (e, tt)
AllBlocks-append (x ∷ xs) b h e = (h.0, AllBlocks-append xs b h.1 e)

pub nil_of_length : (l : Text) → length l ≡ 0 → l ≡ []
nil_of_length [] h = refl
nil_of_length (x ∷ l) h = absurd (omega arith)

not_eq : (a b : ℕ) → (a == b) ≡ false → a ≢ b
not_eq a b h = ground arith

abbrev pub filled : Sha256Context → ℕ → Text
filled s byte = set s.data_ s.data_len byte

update_byte_wraps :
    (s : Sha256Context) (byte : ℕ)
    → s.data_len + 1 ≡ 64
    → update_byte s byte ≡ record {
      data_ = filled s byte;
      data_len = 0;
      bit_len = (s.bit_len + 512) % 2 ^ 64;
      state = compress s.state (filled s byte);
    }
unfolding update_byte
update_byte_wraps s byte e = ground arith

update_byte_stays :
    (s : Sha256Context) (byte : ℕ)
    → s.data_len + 1 < 64
    → update_byte s byte ≡ record s { data_ = filled s byte; data_len = s.data_len + 1 }
unfolding update_byte
update_byte_stays s byte e = ground arith

set-zero : (l : Text) (v : ℕ) → 0 < length l → set l 0 v ≡ v ∷ drop 1 l
set-zero [] v h = absurd (omega arith)
set-zero (x ∷ l) v h = refl

pub length-drop_one : (l : Text) → 0 < length l → length (drop 1 l) + 1 ≡ length l
length-drop_one [] h = absurd (omega arith)
length-drop_one (x ∷ l) h = omega arith

module _ (s : Sha256Context) (m : Text) (byte : ℕ) (h : Absorbed s m) where
  open h use {full, tail, junk}

  pub filled-append : filled s byte ≡ (tail ++ byte ∷ []) ++ drop 1 junk
  filled-append =
      rw
        (
          h.buffer,
          set-append tail junk 0 s.data_len byte (omega (arith, h.fill)),
          set-zero junk byte (omega (arith, h.size, h.room)),
        )
        (sym (append_assoc tail (byte ∷ []) (drop 1 junk)))

  longer : m ++ byte ∷ [] ≡ flat full ++ (tail ++ byte ∷ [])
  longer = rw h.message (append_assoc (flat full) tail (byte ∷ []))

  block_full : s.data_len + 1 ≡ 64 → filled s byte ≡ tail ++ byte ∷ []
  block_full e = filled-append ∙ (ap (λ t. (tail ++ byte ∷ []) ++ t) none_left ∙ append-nil _)
    where
      none_left : drop 1 junk ≡ []
      none_left = nil_of_length (drop 1 junk) (omega (arith, length-drop_one junk, h.size, h.fill))

  wraps-Absorbed : s.data_len + 1 ≡ 64 → Absorbed (update_byte s byte) (m ++ byte ∷ [])
  wraps-Absorbed e = rw (update_byte_wraps s byte e) (record {
    full = full ++ (tail ++ byte ∷ []) ∷ [];
    tail = [];
    junk = tail ++ byte ∷ [];
    message = longer ∙ (sym (flat-append full (tail ++ byte ∷ [])) ∙ sym (append-nil _));
    whole =
        AllBlocks-append full (tail ++ byte ∷ []) h.whole
          (omega (arith, length-append tail (byte ∷ []), h.fill));
    buffer = block_full e;
    size = omega (arith, length-append tail (byte ∷ []), h.fill);
    room = omega arith;
    fill = refl;
    count = rw h.count (omega (arith, length-append full ((tail ++ byte ∷ []) ∷ [])));
    words =
        rw (block_full e, h.words)
          (sym (foldl-append compress initial_words full ((tail ++ byte ∷ []) ∷ [])));
  })

  stays-Absorbed : s.data_len + 1 < 64 → Absorbed (update_byte s byte) (m ++ byte ∷ [])
  stays-Absorbed e = rw (update_byte_stays s byte e) (record {
    full = full;
    tail = tail ++ byte ∷ [];
    junk = drop 1 junk;
    message = longer;
    whole = h.whole;
    buffer = filled-append;
    size = omega (arith, length-append tail (byte ∷ []), length-drop_one junk, h.size, h.room);
    room = omega (arith, length-append tail (byte ∷ []), h.fill);
    fill = omega (arith, length-append tail (byte ∷ []), h.fill);
    count = h.count;
    words = h.words;
  })

  update_byte-Absorbed : Absorbed (update_byte s byte) (m ++ byte ∷ [])
  update_byte-Absorbed = elim (Bool-cases (s.data_len + 1 == 64)) [
    | inl e ↦ wraps-Absorbed ((==_iff (s.data_len + 1) 64).0 e)
    | inr e ↦ stays-Absorbed (omega (arith, h.room, h.fill, not_eq (s.data_len + 1) 64 e))
  ]

-- The invariant of `update`.
pub update-Absorbed :
    (s : Sha256Context) (m bytes : Text) → Absorbed s m → Absorbed (update s bytes) (m ++ bytes)
unfolding update
update-Absorbed s m [] h = rw append-nil h
update-Absorbed s m (byte ∷ bytes) h =
    subst (Absorbed (update (update_byte s byte) bytes)) (append_assoc m (byte ∷ []) bytes) (
      update-Absorbed (update_byte s byte) (m ++ byte ∷ []) bytes (update_byte-Absorbed s m byte h))
