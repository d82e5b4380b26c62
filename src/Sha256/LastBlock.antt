-- ===== src/Sha256/LastBlock.antt =====
-- What `Sha256Context::final` compresses: the last block of the padded message, or the last two.
use mathlib.Core.List.{foldl, foldl-append}
use stmanager.Prelude.{
  ℕ, zero, suc, ◌+◌, ◌-◌, ◌*◌, ◌/◌, ◌%◌, ◌^◌, ◌≤◌, ◌<◌, Text, length, take, drop, replicate, set,
  List, [], ◌∷◌, ◌++◌, ◌≡◌, refl, sym, ap, ◌∙◌, arith, append_assoc, append-nil, length-append,
  length-replicate, length-take, length-drop, take-append-drop, lt→ltb, not_lt→ltb,
}
use stmanager.Sha256.Compress.{Words, compress}
use stmanager.Sha256.Context.{
  Sha256Context, initial_words, zero_fill, pad_context, put_length, hash_bytes, final_hash,
}
use stmanager.Sha256.Buffer.{length_bytes, zero_fill-append, put_length-append}
use stmanager.Sha256.Padding.{
  zero_count, padded, blocks, digest, flat, AllBlocks, length-flat, blocks-flat,
}
use stmanager.Sha256.Absorb.{Absorbed, filled-append, length-drop_one}

replicate-append : (a b n : ℕ) (v : ℕ) → n ≡ a + b → replicate n v ≡ replicate a v ++ replicate b v
replicate-append zero b n v e = ap (λ (k : ℕ). replicate k v) (omega arith)
replicate-append (suc a) b zero v e = absurd (omega arith)
replicate-append (suc a) b (suc n) v e = ap (λ l. v ∷ l) (replicate-append a b n v (omega arith))

flat_append : (xs ys : List Text) → flat (xs ++ ys) ≡ flat xs ++ flat ys
flat_append [] ys = refl
flat_append (x ∷ xs) ys =
    ap (λ t. x ++ t) (flat_append xs ys) ∙ sym (append_assoc x (flat xs) (flat ys))

AllBlocks-append : (xs ys : List Text) → AllBlocks xs → AllBlocks ys → AllBlocks (xs ++ ys)
AllBlocks-append [] ys h k = k
AllBlocks-append (x ∷ xs) ys h k = (h.0, AllBlocks-append xs ys h.1 k)

-- A padded message that is a row of blocks is hashed by compressing them in turn.
digest_of_blocks :
    (m : Text) (all : List Text)
    → AllBlocks all
    → padded m ≡ flat all
    → digest m ≡ hash_bytes (foldl compress initial_words all)
unfolding digest
digest_of_blocks m all h e = ap (λ (l : List Text). hash_bytes (foldl compress initial_words l)) row
  where
    row : blocks (length (padded m) / 64) (padded m) ≡ all
    row = rw e (
        ap (blocks (length (flat all) / 64)) (sym (append-nil (flat all)))
        ∙ (blocks-flat all (length (flat all) / 64) 0 [] (omega (arith, length-flat all h)) h
            ∙ unfold blocks in append-nil all))

-- The compression of the last block.
abbrev last_step : Sha256Context → Text
last_step c =
    hash_bytes (compress c.state (put_length ((c.bit_len + c.data_len * 8) % 2 ^ 64) c.data_))

final_of_pad : (s : Sha256Context) → final_hash s ≡ last_step (pad_context s)
unfolding final_hash
final_of_pad s = refl

pad_short :
    (s : Sha256Context)
    → s.data_len < 56
    → pad_context s ≡ record s {
      data_ = zero_fill (56 - (s.data_len + 1)) (s.data_len + 1) (set s.data_ s.data_len 0x80);
    }
unfolding pad_context
pad_short s e = rw (lt→ltb s.data_len 56 e)

pad_long :
    (s : Sha256Context)
    → 56 ≤ s.data_len
    → pad_context s ≡ (
        let full =
          zero_fill (64 - (s.data_len + 1)) (s.data_len + 1) (set s.data_ s.data_len 0x80) in
        record s { data_ = zero_fill 56 0 full; state = compress s.state full })
unfolding pad_context
pad_long s e = rw (not_lt→ltb s.data_len 56 e)

-- Where the message ends within its last block: what `final` compresses.
module _ (s : Sha256Context) (m : Text) (h : Absorbed s m) where
  open h use {full, tail, junk}

  marked-append : set s.data_ s.data_len 0x80 ≡ (tail ++ 0x80 ∷ []) ++ drop 1 junk
  marked-append = filled-append s m 0x80 h

  final_bits : (s.bit_len + s.data_len * 8) % 2 ^ 64 ≡ 8 * length m % 2 ^ 64
  final_bits =
      rw h.message
        (omega (arith, h.count, h.fill, length-append (flat full) tail, length-flat full h.whole))

  -- The row of blocks that the padding makes of the message, from those that it makes of the tail.
  digest_of_tail :
      (last : List Text)
      → AllBlocks last
      → tail ++ 0x80 ∷ (replicate (zero_count (length m)) 0 ++ length_bytes (8 * length m % 2 ^ 64))
        ≡ flat last
      → digest m ≡ hash_bytes (foldl compress s.state last)
  unfolding padded
  digest_of_tail last k e =
      digest_of_blocks m (full ++ last) (AllBlocks-append full last h.whole k) whole_row
      ∙ ap hash_bytes (
          foldl-append compress initial_words full last
          ∙ ap (λ (w : Words). foldl compress w last) (sym h.words))
    where
      whole_row : padded m ≡ flat (full ++ last)
      whole_row =
          rw (flat_append full last, ← e)
            (ap
                (λ t.
                  t
                  ++ 0x80
                    ∷ (replicate (zero_count (length m)) 0 ++ length_bytes (8 * length m % 2 ^ 64)))
                h.message
              ∙ append_assoc (flat full) tail _)

  length_m : length m % 64 ≡ length tail
  length_m =
      rw h.message (omega (arith, length-append (flat full) tail, length-flat full h.whole, h.room))

  junk_left : length (drop 1 junk) + length tail ≡ 63
  junk_left = omega (arith, length-drop_one junk, h.size, h.room)

  -- The last block of a short end: the tail, the mark, zeros and the length.
  abbrev short_block : Text
  short_block =
      ((tail ++ 0x80 ∷ []) ++ replicate (55 - length tail) 0)
      ++ length_bytes (8 * length m % 2 ^ 64)

  short_buffer :
      (n : ℕ)
      → s.data_len < 56
      → put_length n
          (zero_fill (56 - (s.data_len + 1)) (s.data_len + 1) (set s.data_ s.data_len 0x80))
        ≡ ((tail ++ 0x80 ∷ []) ++ replicate (55 - length tail) 0) ++ length_bytes n
  short_buffer n e =
      rw
        (
          marked-append,
          ← take-append-drop (55 - length tail) (drop 1 junk),
          zero_fill-append (tail ++ 0x80 ∷ []) (take (55 - length tail) (drop 1 junk))
              (drop (55 - length tail) (drop 1 junk)) (56 - (s.data_len + 1)) (s.data_len + 1) zeros
              (omega (arith, h.fill, length-append tail (0x80 ∷ []))),
          ← append_assoc (tail ++ 0x80 ∷ []) (replicate (56 - (s.data_len + 1)) 0)
              (drop (55 - length tail) (drop 1 junk)),
          count_eq,
        )
        (put_length-append n ((tail ++ 0x80 ∷ []) ++ replicate (55 - length tail) 0)
          (drop (55 - length tail) (drop 1 junk))
          (omega (
            arith,
            length-append (tail ++ 0x80 ∷ []) (replicate (55 - length tail) 0),
            length-append tail (0x80 ∷ []),
            length-replicate {0} {A = ℕ} (55 - length tail) 0,
            h.fill,
          ))
          (omega (arith, length-drop (55 - length tail) (drop 1 junk), junk_left, h.fill)))
    where
      count_eq : 56 - (s.data_len + 1) ≡ 55 - length tail
      count_eq = omega (arith, h.fill)

      zeros : 56 - (s.data_len + 1) ≡ length (take (55 - length tail) (drop 1 junk))
      zeros = omega (arith, h.fill, length-take (55 - length tail) (drop 1 junk), junk_left)

  short_length : s.data_len < 56 → length short_block ≡ 64
  short_length e = omega (
    arith,
    length-append ((tail ++ 0x80 ∷ []) ++ replicate (55 - length tail) 0)
        (length_bytes (8 * length m % 2 ^ 64)),
    length-append (tail ++ 0x80 ∷ []) (replicate (55 - length tail) 0),
    length-append tail (0x80 ∷ []),
    length-replicate {0} {A = ℕ} (55 - length tail) 0,
    h.fill,
  )

  short_row :
      s.data_len < 56
      → tail ++ 0x80 ∷ (replicate (zero_count (length m)) 0 ++ length_bytes (8 * length m % 2 ^ 64))
        ≡ flat (short_block ∷ [])
  short_row e =
      rw
        (
          append-nil short_block,
          append_assoc (tail ++ 0x80 ∷ []) (replicate (55 - length tail) 0)
              (length_bytes (8 * length m % 2 ^ 64)),
          append_assoc tail (0x80 ∷ [])
              (replicate (55 - length tail) 0 ++ length_bytes (8 * length m % 2 ^ 64)),
        )
        (ap (λ (n : ℕ). tail ++ 0x80 ∷ (replicate n 0 ++ length_bytes (8 * length m % 2 ^ 64)))
          (omega (arith, length_m, h.fill)))

  pub final_hash_short : s.data_len < 56 → final_hash s ≡ digest m
  final_hash_short e =
      final_of_pad s
      ∙ (ap last_step (pad_short s e)
          ∙ (ap (λ t. hash_bytes (compress s.state t))
                (short_buffer ((s.bit_len + s.data_len * 8) % 2 ^ 64) e
                  ∙ ap
                      (λ (n : ℕ).
                        ((tail ++ 0x80 ∷ []) ++ replicate (55 - length tail) 0) ++ length_bytes n)
                      final_bits)
              ∙ sym (digest_of_tail (short_block ∷ []) (short_length e, tt) (short_row e))))

  -- The last two blocks of a long end.
  abbrev mark_block : Text
  mark_block = (tail ++ 0x80 ∷ []) ++ replicate (63 - length tail) 0

  abbrev length_block : Text
  length_block = replicate 56 0 ++ length_bytes (8 * length m % 2 ^ 64)

  mark_length : length mark_block ≡ 64
  mark_length = omega (
    arith,
    length-append (tail ++ 0x80 ∷ []) (replicate (63 - length tail) 0),
    length-append tail (0x80 ∷ []),
    length-replicate {0} {A = ℕ} (63 - length tail) 0,
    h.room,
  )

  mark_buffer :
      zero_fill (64 - (s.data_len + 1)) (s.data_len + 1) (set s.data_ s.data_len 0x80) ≡ mark_block
  mark_buffer =
      rw
        (
          marked-append,
          ← append-nil (drop 1 junk),
          zero_fill-append (tail ++ 0x80 ∷ []) (drop 1 junk) [] (64 - (s.data_len + 1))
              (s.data_len + 1) (omega (arith, h.fill, junk_left))
              (omega (arith, h.fill, length-append tail (0x80 ∷ []))),
          append-nil {A = ℕ} (replicate (64 - (s.data_len + 1)) 0),
        )
        (ap (λ (n : ℕ). (tail ++ 0x80 ∷ []) ++ replicate n 0) (omega (arith, h.fill)))

  length_buffer :
      (n : ℕ) → put_length n (zero_fill 56 0 mark_block) ≡ replicate 56 0 ++ length_bytes n
  length_buffer n =
      ap (λ t. put_length n (zero_fill 56 0 t)) (sym (take-append-drop 56 mark_block))
      ∙ (ap (put_length n) (
            zero_fill-append [] (take 56 mark_block) (drop 56 mark_block) 56 0
              (omega (arith, length-take 56 mark_block, mark_length)) refl)
          ∙ put_length-append n (replicate 56 0) (drop 56 mark_block) refl
              (omega (arith, length-drop 56 mark_block, mark_length)))

  long_row :
      56 ≤ s.data_len
      → tail ++ 0x80 ∷ (replicate (zero_count (length m)) 0 ++ length_bytes (8 * length m % 2 ^ 64))
        ≡ flat (mark_block ∷ length_block ∷ [])
  long_row e = rw (
    append-nil length_block,
    append_assoc (tail ++ 0x80 ∷ []) (replicate (63 - length tail) 0) length_block,
    append_assoc tail (0x80 ∷ []) (replicate (63 - length tail) 0 ++ length_block),
    replicate-append (63 - length tail) 56 (zero_count (length m)) 0
        (omega (arith, length_m, h.fill, h.room)),
    append_assoc (replicate (63 - length tail) 0) (replicate 56 0)
        (length_bytes (8 * length m % 2 ^ 64)),
  )

  pub final_hash_long : 56 ≤ s.data_len → final_hash s ≡ digest m
  final_hash_long e =
      final_of_pad s
      ∙ (ap last_step (pad_long s e)
          ∙ (ap
                (λ t. hash_bytes (
                  compress (compress s.state t)
                    (put_length ((s.bit_len + s.data_len * 8) % 2 ^ 64) (zero_fill 56 0 t))))
                mark_buffer
              ∙ (ap (λ t. hash_bytes (compress (compress s.state mark_block) t))
                    (length_buffer ((s.bit_len + s.data_len * 8) % 2 ^ 64)
                      ∙ ap (λ (n : ℕ). replicate 56 0 ++ length_bytes n) final_bits)
                  ∙ sym (
                      digest_of_tail (mark_block ∷ length_block ∷ []) (mark_length, (refl, tt))
                        (long_row e)))))
