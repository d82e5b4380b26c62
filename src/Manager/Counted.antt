-- ===== src/Manager/Counted.antt =====
-- What `CountingOutputStreamBuf` counts, against what the stream buffer below it got.
use stmanager.Prelude.{
  ℕ, zero, suc, ◌+◌, ◌%◌, ◌^◌, ◌≤◌, ◌<◌, Text, Bool, true, false, length, take, Option, none, some,
  List, [], ◌∷◌, ◌++◌, ◌≡◌, refl, sym, ap, ◌∙◌, arith, append-nil, append_assoc, length-append,
  length-take, not, if◌then◌else◌,
}
use stmanager.Client.Branches.{done_choice-holds}
use stmanager.Manager.Counting.{
  StreamBuf, CountingOutputStreamBuf, Counting, failed_counting, put_all, put_one, xsputn, overflow,
  sync,
}

-- A call of the buffer.
pub data Put : Type 0 where
  write : Text → Put
  put : Option ℕ → Put
  flush : Put

-- The bytes that a call hands over.
abbrev pub given : Put → Text
given (write bytes) = bytes
given (put none) = []
given (put (some value)) = value % 256 ∷ []
given flush = []

abbrev pub given_by : List Put → Text
given_by [] = []
given_by (p ∷ rest) = given p ++ given_by rest

abbrev pub IsByteOf : Text → ℕ → Option ℕ → Text → Type 0
IsByteOf before byte none after = after ≡ before
IsByteOf before byte (some v) after = after ≡ before ++ (byte ∷ [])

-- The bytes that a stream buffer got: those that it reports, in order.
pub record Honest (d : StreamBuf) : Type 0 where
  pub contents : d.State → Text
  pub takes :
      (input : Text) (s : d.State)
      → ((d.sputn input s).0 ≤ length input)
        × (contents (d.sputn input s).1 ≡ contents s ++ take (d.sputn input s).0 input)
  pub puts :
      (byte : ℕ) (s : d.State)
      → IsByteOf (contents s) byte (d.sputc byte s).0 (contents (d.sputc byte s).1)
  pub syncs : (s : d.State) → contents (d.pubsync s).1 ≡ contents s

module _ (d : StreamBuf) where
  abbrev pub after_put : Put → Counting d → Counting d
  after_put (write bytes) x = (xsputn d bytes x).1
  after_put (put value) x = (overflow d value x).1
  after_put flush x = (sync d x).1

  abbrev pub after_puts : List Put → Counting d → Counting d
  after_puts [] x = x
  after_puts (p ∷ rest) x = after_puts rest (after_put p x)

-- From `x` to `y`, given `bytes`: the count has grown by what arrived, which is all of `bytes` unless
-- there is an error, and an error stays.
pub record Counted {d : StreamBuf} (v : Honest d) (bytes : Text) (x y : Counting d) : Type 0 where
  pub moved : Text
  pub arrived : v.contents y.1 ≡ v.contents x.1 ++ moved
  pub grown : (y.0).bytes_written ≡ (x.0).bytes_written + length moved
  pub bounded : length moved ≤ length bytes
  pub whole : (y.0).has_error ≡ false → moved ≡ bytes
  pub sticky : (y.0).has_error ≡ false → (x.0).has_error ≡ false

module _ {d : StreamBuf} (v : Honest d) where
  Counted-nothing :
      (bytes : Text) (x y : Counting d)
      → v.contents y.1 ≡ v.contents x.1
      → (y.0).bytes_written ≡ (x.0).bytes_written
      → ((y.0).has_error ≡ false → bytes ≡ [])
      → ((y.0).has_error ≡ false → (x.0).has_error ≡ false)
      → Counted v bytes x y
  Counted-nothing bytes x y c n w k = record {
    moved = [];
    arrived = c ∙ sym (append-nil (v.contents x.1));
    grown = omega arith;
    bounded = omega arith;
    whole = λ e. sym (w e);
    sticky = k;
  }

  Counted-then :
      {a b : Text} {x y z : Counting d} → Counted v a x y → Counted v b y z → Counted v (a ++ b) x z
  Counted-then {a} {b} {x} {y} {z} p q = record {
    moved = p.moved ++ q.moved;
    arrived =
        q.arrived
        ∙ ap (λ t. t ++ q.moved) p.arrived
        ∙ append_assoc (v.contents x.1) p.moved q.moved;
    grown = omega (arith, p.grown, q.grown, length-append p.moved q.moved);
    bounded = omega (arith, p.bounded, q.bounded, length-append p.moved q.moved, length-append a b);
    whole = λ e. rw (p.whole (q.sticky e), q.whole e) refl;
    sticky = λ e. p.sticky (q.sticky e);
  }

  put_all-counts :
      (input : Text) (n : ℕ) (b : CountingOutputStreamBuf)
      → n ≤ length input
      → b.bytes_written + length input < 2 ^ 64
      → (put_all d input n b).bytes_written ≡ b.bytes_written + n
  put_all-counts input n b h k = ground arith

  put_all-whole :
      (input : Text) (n : ℕ) (b : CountingOutputStreamBuf)
      → (put_all d input n b).has_error ≡ false
      → (n ≡ length input) × (b.has_error ≡ false)
  put_all-whole input n b e = (ground arith, ground arith)

  take_whole : (input : Text) (n : ℕ) → n ≡ length input → take n input ≡ input
  take_whole [] zero e = refl
  take_whole [] (suc n) e = absurd (omega arith)
  take_whole (a ∷ rest) zero e = absurd (omega arith)
  take_whole (a ∷ rest) (suc n) e = ap (λ t. a ∷ t) (take_whole rest n (omega arith))

  write-Counted :
      (input : Text) (b : CountingOutputStreamBuf) (s : d.State)
      → b.bytes_written + length input < 2 ^ 64
      → Counted v input (b, s) (xsputn d input (b, s)).1
  unfolding xsputn
  write-Counted [] b s k = Counted-nothing [] (b, s) (b, s) refl refl (λ e. refl) (λ e. e)
  write-Counted (a ∷ rest) b s k =
      done_choice-holds (λ x. Counted v (a ∷ rest) (b, s) x.1) (not b.connected) _ _
        (λ e.
          Counted-nothing (a ∷ rest) (b, s) (failed_counting d b, s) refl refl (λ e. cc) (λ e. cc))
        (λ e.
          let (n, s') = d.sputn (a ∷ rest) s in
          let (few, got) = v.takes (a ∷ rest) s in
          record {
            moved = take n (a ∷ rest);
            arrived = got;
            grown =
                omega (arith, put_all-counts (a ∷ rest) n b few k, length-take n (a ∷ rest), few);
            bounded = omega (arith, length-take n (a ∷ rest));
            whole = λ f. take_whole (a ∷ rest) n ((put_all-whole (a ∷ rest) n b f).0);
            sticky = λ f. (put_all-whole (a ∷ rest) n b f).1;
          })

  one-Counted :
      (value : ℕ) (b : CountingOutputStreamBuf) (s s' : d.State) (o : Option ℕ)
      → IsByteOf (v.contents s) (value % 256) o (v.contents s')
      → b.bytes_written + 1 < 2 ^ 64
      → Counted v (value % 256 ∷ []) (b, s) (put_one d o b, s')
  one-Counted value b s s' none g k =
      Counted-nothing (value % 256 ∷ []) (b, s) (failed_counting d b, s') g refl (λ e. cc) (λ e. cc)
  one-Counted value b s s' (some w) g k = record {
    moved = value % 256 ∷ [];
    arrived = g;
    grown = omega arith;
    bounded = omega arith;
    whole = λ e. refl;
    sticky = λ e. e;
  }

  put-Counted :
      (value : ℕ) (b : CountingOutputStreamBuf) (s : d.State)
      → b.bytes_written + 1 < 2 ^ 64
      → Counted v (value % 256 ∷ []) (b, s) (overflow d (some value) (b, s)).1
  unfolding overflow
  put-Counted value b s k =
      done_choice-holds (λ x. Counted v (value % 256 ∷ []) (b, s) x.1) (not b.connected) _ _
        (λ e.
          Counted-nothing (value % 256 ∷ []) (b, s) (failed_counting d b, s) refl refl (λ e. cc)
            (λ e. cc))
        (λ e.
          one-Counted value b s (d.sputc (value % 256) s).1 (d.sputc (value % 256) s).0
            (v.puts (value % 256) s) k)

  sync-Counted : (b : CountingOutputStreamBuf) (s : d.State) → Counted v [] (b, s) (sync d (b, s)).1
  unfolding sync
  sync-Counted b s =
      done_choice-holds (λ x. Counted v [] (b, s) x.1) (not b.connected) _ _
        (λ e. Counted-nothing [] (b, s) (failed_counting d b, s) refl refl (λ e. refl) (λ e. cc))
        (λ e. synced (d.pubsync s).0)
    where
      synced :
          (done : Bool)
          → Counted v [] (b, s) (if not done then failed_counting d b else b, (d.pubsync s).1)
      synced true =
          Counted-nothing [] (b, s) (b, (d.pubsync s).1) (v.syncs s) refl (λ e. refl) (λ e. e)
      synced false =
          Counted-nothing [] (b, s) (failed_counting d b, (d.pubsync s).1) (v.syncs s) refl
            (λ e. refl) (λ e. cc)

  after_put-Counted :
      (p : Put) (x : Counting d)
      → (x.0).bytes_written + length (given p) < 2 ^ 64
      → Counted v (given p) x (after_put d p x)
  unfolding overflow
  after_put-Counted (write bytes) x k = write-Counted bytes x.0 x.1 k
  after_put-Counted (put none) x k = Counted-nothing [] x x refl refl (λ e. refl) (λ e. e)
  after_put-Counted (put (some value)) x k = put-Counted value x.0 x.1 k
  after_put-Counted flush x k = sync-Counted x.0 x.1

  -- Where the stream buffer below reports what it takes and the counter cannot overflow 64 bits,
  -- after any calls of `xsputn`, `overflow` and `sync` the counter has grown by the number of bytes
  -- that the buffer below got, and without an error it got all bytes that were handed over, in order.
  pub after_puts-Counted :
      (calls : List Put) (x : Counting d)
      → (x.0).bytes_written + length (given_by calls) < 2 ^ 64
      → Counted v (given_by calls) x (after_puts d calls x)
  after_puts-Counted [] x k = Counted-nothing [] x x refl refl (λ e. refl) (λ e. e)
  after_puts-Counted (p ∷ rest) x k =
      let first = after_put-Counted p x (omega (arith, length-append (given p) (given_by rest))) in
      Counted-then first (
        after_puts-Counted rest (after_put d p x)
          (omega (arith, first.grown, first.bounded, length-append (given p) (given_by rest))))
