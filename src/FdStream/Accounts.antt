-- ===== src/FdStream/Accounts.antt =====
-- What `xsputn` reports, against what the descriptor got.
use stmanager.Prelude.{
  ℕ, zero, suc, ◌+◌, ◌^◌, ◌≤◌, ◌<◌, Text, true, false, length, take, drop, some, [], ◌∷◌, ◌++◌,
  ◌==◌, ◌≡◌, refl, sym, ap, subst, ◌∙◌, arith, append-nil, append_assoc, length-append, length-drop,
  take-append-drop, Bool-cases, inl, inr,
}
use stmanager.Status.{Result, ok}
use stmanager.Files.Calls.{Writing, bytes_written, write_failed}
use stmanager.FdStream.Buffers.{
  eintr, eio, max_write_chunk_size, FdCalls, FdOutputStreamBuf, failed_output, counted, put_loop,
  put_open, xsputn,
}

-- What a descriptor got, and how many calls will still be interrupted.
pub record FdView (c : FdCalls) : Type 0 where
  pub contents : c.State → Text
  pub interrupts : c.State → ℕ

-- `write` appends the bytes that it counts, at most those it was given; a call that fails appends
-- none.
abbrev pub IsGoodWrite : {c : FdCalls} → FdView c → c.State → Text → Writing → c.State → Type 0
IsGoodWrite v s chunk (bytes_written n) s' =
    (n ≤ length chunk)
    × (v.contents s' ≡ v.contents s ++ take n chunk)
    × (v.interrupts s' ≤ v.interrupts s)
IsGoodWrite v s chunk (write_failed errno) s' =
    (v.contents s' ≡ v.contents s)
    × ((errno == eintr) ≡ true → suc (v.interrupts s') ≤ v.interrupts s)

-- `xsputn` returned how many bytes the descriptor got, counted them, and left some of the data
-- only with an error.
pub record Account {c : FdCalls} (v : FdView c) (total : ℕ) (input : Text) (b : FdOutputStreamBuf)
    (s : c.State) (r : Result ℕ × (FdOutputStreamBuf × c.State)) : Type 0 where
  pub moved : Text
  pub left : Text
  pub split : input ≡ moved ++ left
  pub returned : r.0 ≡ ok (total + length moved)
  pub arrived : v.contents r.1.1 ≡ v.contents s ++ moved
  pub recorded : r.1.0.written ≡ b.written + length moved
  pub whole : r.1.0.has_error ≡ false → left ≡ []

take-take_part : (n m : ℕ) (d : Text) → n ≤ length (take m d) → take n (take m d) ≡ take n d
take-take_part zero m d h = refl
take-take_part (suc n) zero d h = absurd (omega arith)
take-take_part (suc n) (suc m) [] h = refl
take-take_part (suc n) (suc m) (x ∷ d) h = ap (λ l. x ∷ l) (take-take_part n m d (omega arith))

length-take_part : (n m : ℕ) (d : Text) → n ≤ length (take m d) → length (take n d) ≡ n
length-take_part zero m d h = refl
length-take_part (suc n) zero d h = absurd (omega arith)
length-take_part (suc n) (suc m) [] h = absurd (omega arith)
length-take_part (suc n) (suc m) (x ∷ d) h = ap suc (length-take_part n m d (omega arith))

take_fits : (n : ℕ) (d : Text) → length (take n d) ≡ n → n ≤ length d
take_fits zero d h = omega arith
take_fits (suc n) [] h = absurd (omega arith)
take_fits (suc n) (x ∷ d) h = omega (arith, take_fits n d (omega arith))

module _ {c : FdCalls} (v : FdView c) (fd : ℕ) where
  -- The data that are left alone, with an error or at the end.
  Account-stop :
      (total : ℕ) (input : Text) (b b' : FdOutputStreamBuf) (s s' : c.State)
      → v.contents s' ≡ v.contents s
      → b'.written ≡ b.written
      → (b'.has_error ≡ false → input ≡ [])
      → Account v total input b s (ok total, (b', s'))
  Account-stop total input b b' s s' p q w = record {
    moved = [];
    left = input;
    split = refl;
    returned = ap ok (omega arith);
    arrived = p ∙ sym (append-nil (v.contents s));
    recorded = omega arith;
    whole = w;
  }

  -- A call that was interrupted.
  Account-again :
      {total : ℕ} {input : Text} {b : FdOutputStreamBuf} {s s' : c.State}
      {r : Result ℕ × (FdOutputStreamBuf × c.State)}
      → v.contents s' ≡ v.contents s
      → Account v total input b s' r
      → Account v total input b s r
  Account-again p a = record {
    moved = a.moved;
    left = a.left;
    split = a.split;
    returned = a.returned;
    arrived = a.arrived ∙ ap (λ t. t ++ a.moved) p;
    recorded = a.recorded;
    whole = a.whole;
  }

  -- A call that took the first `n` bytes.
  Account-more :
      {total : ℕ} {input : Text} {b : FdOutputStreamBuf} {s s' : c.State}
      {r : Result ℕ × (FdOutputStreamBuf × c.State)} (n : ℕ)
      → length (take n input) ≡ n
      → v.contents s' ≡ v.contents s ++ take n input
      → b.written + n < 2 ^ 64
      → Account v (total + n) (drop n input) (counted n b) s' r
      → Account v total input b s r
  Account-more {total} {input} {b} {s} n l p h a = record {
    moved = take n input ++ a.moved;
    left = a.left;
    split =
        sym (take-append-drop n input)
        ∙ (ap (λ t. take n input ++ t) a.split ∙ sym (append_assoc (take n input) a.moved a.left));
    returned = a.returned ∙ ap ok (omega (arith, length-append (take n input) a.moved, l));
    arrived =
        a.arrived ∙ (ap (λ t. t ++ a.moved) p ∙ append_assoc (v.contents s) (take n input) a.moved);
    recorded = omega (arith, a.recorded, length-append (take n input) a.moved, l, h);
    whole = a.whole;
  }

  module _
      (good : (s : c.State) (chunk : Text)
        → IsGoodWrite v s chunk (c.write_chunk fd chunk s).0 (c.write_chunk fd chunk s).1) where
    put_loop-Account :
        (fuel total : ℕ) (input : Text) (b : FdOutputStreamBuf) (s : c.State)
        → b.written + length input < 2 ^ 64
        → v.interrupts s + length input ≤ fuel
        → Account v total input b s (put_loop c fuel fd total input (b, s))
    unfolding put_loop
    put_loop-Account fuel total [] b s k h = Account-stop total [] b b s s refl refl (λ e. refl)
    put_loop-Account zero total (a ∷ rest) b s k h = absurd (omega arith)
    put_loop-Account (suc fuel) total (a ∷ rest) b s k h =
        go (put_loop-Account fuel) (c.write_chunk fd chunk s).0 refl (good s chunk)
      where
        chunk : Text
        chunk = take max_write_chunk_size (a ∷ rest)

        go :
            ((total : ℕ) (input : Text) (b : FdOutputStreamBuf) (s : c.State)
              → b.written + length input < 2 ^ 64
              → v.interrupts s + length input ≤ fuel
              → Account v total input b s (put_loop c fuel fd total input (b, s)))
            → (w : Writing) → (c.write_chunk fd chunk s).0 ≡ w
            → IsGoodWrite v s chunk w (c.write_chunk fd chunk s).1
            → Account v total (a ∷ rest) b s (put_loop c (suc fuel) fd total (a ∷ rest) (b, s))
        go again (bytes_written zero) e g =
            rw (e, put_loop)
              (Account-stop total (a ∷ rest) b (failed_output eio b) s (c.write_chunk fd chunk s).1
                (g.1 ∙ append-nil (v.contents s)) refl (λ x. cc))
        go again (bytes_written (suc n)) e g =
            let part = length-take_part (suc n) max_write_chunk_size (a ∷ rest) g.0 in
            let fits = take_fits (suc n) (a ∷ rest) part in
            rw (e, put_loop)
              (Account-more (suc n) part
                (g.1
                  ∙ ap (λ t. v.contents s ++ t)
                      (take-take_part (suc n) max_write_chunk_size (a ∷ rest) g.0))
                (omega arith)
                (again (total + suc n) (drop n rest) (counted (suc n) b)
                  (c.write_chunk fd chunk s).1 (omega (arith, length-drop n rest, fits, k))
                  (omega (arith, length-drop n rest, fits, g.2, h))))
        go again (write_failed errno) e g = elim (Bool-cases (errno == eintr)) [
          | inl x ↦
              rw (e, put_loop, x)
                (Account-again g.0 (
                  again total (a ∷ rest) b (c.write_chunk fd chunk s).1 k
                    (omega (arith, g.1 x, h))))
          | inr x ↦
              rw (e, put_loop, x)
                (Account-stop total (a ∷ rest) b (failed_output errno b) s
                  (c.write_chunk fd chunk s).1 g.0 refl (λ y. cc))
        ]

    -- Where `write` keeps its contract, the counter cannot overflow 64 bits and the fuel has a round
    -- for each interrupt to come and for each byte, `xsputn` returns: how many bytes the descriptor
    -- got. These are the first bytes of the data, the counter has grown by their number, and bytes
    -- are left only with an error.
    pub xsputn-Account :
        (fuel : ℕ) (input : Text) (b : FdOutputStreamBuf) (s : c.State)
        → b.file_descriptor ≡ some fd
        → b.written + length input < 2 ^ 64
        → v.interrupts s + length input ≤ fuel
        → Account v 0 input b s (xsputn c fuel input (b, s))
    unfolding xsputn
    xsputn-Account fuel [] b s d k h = Account-stop 0 [] b b s s refl refl (λ e. refl)
    xsputn-Account fuel (a ∷ rest) b s d k h =
        subst (λ o. Account v 0 (a ∷ rest) b s (put_open c fuel o (a ∷ rest) (b, s))) (sym d)
          (put_loop-Account fuel 0 (a ∷ rest) b s k h)
