-- ===== src/Wire/Streams.antt =====
-- The loops of `send_framed_stream` and `receive_framed_stream` over a reliable connection.
use stmanager.Prelude.{
  ℕ, zero, suc, ◌+◌, ◌-◌, ◌≤◌, ◌<◌, min, Text, length, take, drop, [], ◌∷◌, ◌++◌, ◌≡◌, refl, sym,
  ap, ◌∙◌, arith, append-nil, append_assoc, length-take, length-drop, take-append-drop, subst,
}
use stmanager.Status.{Result, ok, ◌>>◌}
use stmanager.Wire.Socket.{Socket, View, IsReliable}
use stmanager.Wire.Transfer.{write_all, read_all}
use stmanager.Wire.Frames.{buffer_size, good, OutStream, send_chunks, receive_chunks, store_chunk}
use stmanager.Wire.Delivery.{
  Done, Done-bind, Done-pure, write_all-Done, read_all-Done, append_cancel,
}

-- An output stream that takes every write.
pub record IsStoring (o : OutStream) : Type 0 where
  pub contents : o.Out → Text
  pub writes :
      (out : o.Out) (t : Text)
      → ((o.write out t).0 ≡ good) × (contents (o.write out t).1 ≡ contents out ++ t)

module _ {k : Socket} (v : View k) (reliable : IsReliable v) (fuel : ℕ) where
  -- One round, from the rounds after it.
  send_round :
      (early_end : Text) (rounds size : ℕ) (left : Text) (c : k.Conn)
      → v.interrupts c + length left ≤ fuel
      → ((d : k.Conn)
          → v.interrupts d + length (drop size left) ≤ fuel
          → Done v
              (send_chunks k fuel early_end rounds (drop size left) (length (drop size left)) d)
              d
              tt
              []
              (drop size left))
      → Done v
          ((write_all k fuel (take size left)
              >> send_chunks k fuel early_end rounds
                  (drop size left)
                  (length left - length (take size left)))
            c)
          c
          tt
          []
          left
  send_round early_end rounds size left c h later =
      subst
        (λ (sent : Text).
          Done v
            ((write_all k fuel (take size left)
                >> send_chunks k fuel early_end rounds (drop size left)
                    (length left - length (take size left)))
              c)
            c tt [] sent)
        (take-append-drop size left)
        (Done-bind v (write_all k fuel (take size left))
          (λ _.
            send_chunks k fuel early_end rounds (drop size left)
              (length left - length (take size left)))
          c tt tt [] [] (take size left) (drop size left) first
          (subst
            (λ (n : ℕ).
              Done v
                (send_chunks k fuel early_end rounds (drop size left) n
                  (write_all k fuel (take size left) c).1)
                (write_all k fuel (take size left) c).1 tt [] (drop size left))
            sizes (later _ (omega (arith, first.patience, length-drop size left)))))
    where
      sizes : length (drop size left) ≡ length left - length (take size left)
      sizes = omega (arith, length-take size left, length-drop size left)

      first : Done v (write_all k fuel (take size left) c) c tt [] (take size left)
      first =
          write_all-Done v reliable fuel (take size left) c (omega (arith, length-take size left))

  pub send_chunks-Done :
      (early_end : Text) (rounds : ℕ) (left : Text) (c : k.Conn)
      → length left ≤ rounds
      → v.interrupts c + length left ≤ fuel
      → Done v (send_chunks k fuel early_end rounds left (length left) c) c tt [] left
  unfolding send_chunks
  send_chunks-Done early_end rounds [] c r h = Done-pure v c tt
  send_chunks-Done early_end zero (b ∷ bs) c r h = absurd (omega arith)
  send_chunks-Done early_end (suc rounds) (b ∷ bs) c r h =
      send_round early_end rounds (min (suc (length bs)) buffer_size) (b ∷ bs) c h (λ d p.
        send_chunks-Done early_end rounds (drop (min (suc (length bs)) buffer_size) (b ∷ bs)) d
          (omega (arith, length-drop (min (suc (length bs)) buffer_size) (b ∷ bs))) p)

  -- A run that read `moved` from the connection and wrote it to the output stream.
  pub record Stored {o : OutStream} (storing : IsStoring o)
      (r : Result (Unit {0}) × (k.Conn × o.Out)) (c : k.Conn) (out : o.Out) (moved : Text)
      : Type 0 where
    pub returned : r.0 ≡ ok tt
    pub streamed : v.stream c ≡ moved ++ v.stream r.1.0
    pub written : storing.contents r.1.1 ≡ storing.contents out ++ moved

  module _ {o : OutStream} (storing : IsStoring o) where
    receive_round :
        (rounds size : ℕ) (bs rest : Text) (c : k.Conn) (out : o.Out)
        → v.stream c ≡ bs ++ rest
        → v.interrupts c + length bs ≤ fuel
        → size ≤ length bs
        → 0 < size
        → ((d : k.Conn) (out' : o.Out)
            → v.stream d ≡ drop size bs ++ rest
            → v.interrupts d + length (drop size bs) ≤ fuel
            → Stored storing
                (receive_chunks k fuel o rounds (length (drop size bs)) (d, out'))
                d
                out'
                (drop size bs))
        → Stored storing
            (store_chunk k fuel o
              (read_all k fuel size c).0
              (receive_chunks k fuel o rounds (length bs - size))
              ((read_all k fuel size c).1, out))
            c
            out
            bs
    unfolding store_chunk
    receive_round rounds size bs rest c out s h fits pos later =
        rw (read.returned, (storing.writes out (take size bs)).0, ← length-drop size bs)
          (record {
            returned = stored.returned;
            streamed = rw (
              read.streamed,
              stored.streamed,
              ← append_assoc (take size bs) (drop size bs),
              take-append-drop size bs,
            );
            written = rw (
              stored.written,
              (storing.writes out (take size bs)).1,
              append_assoc (storing.contents out) (take size bs),
              take-append-drop size bs,
            );
          })
      where
        size_taken : length (take size bs) ≡ size
        size_taken = omega (arith, length-take size bs)

        whole : v.stream c ≡ take size bs ++ (drop size bs ++ rest)
        whole =
            s
            ∙ (ap (λ t. t ++ rest) (sym (take-append-drop size bs))
                ∙ append_assoc (take size bs) (drop size bs) rest)

        read : Done v (read_all k fuel size c) c (take size bs) (take size bs) []
        read =
            subst (λ (n : ℕ). Done v (read_all k fuel n c) c (take size bs) (take size bs) [])
              size_taken
              (read_all-Done v reliable fuel (take size bs) (drop size bs ++ rest) c whole
                (omega (arith, size_taken)))

        stored :
            Stored storing
              (receive_chunks k fuel o rounds
                (length (drop size bs))
                ((read_all k fuel size c).1, (o.write out (take size bs)).1))
              (read_all k fuel size c).1
              (o.write out (take size bs)).1
              (drop size bs)
        stored =
            later (read_all k fuel size c).1 (o.write out (take size bs)).1
              (append_cancel (take size bs) _ (drop size bs ++ rest) (sym read.streamed ∙ whole))
              (omega (arith, read.patience, length-drop size bs))

    pub receive_chunks-Stored :
        (rounds : ℕ) (bs rest : Text) (c : k.Conn) (out : o.Out)
        → v.stream c ≡ bs ++ rest
        → length bs ≤ rounds
        → v.interrupts c + length bs ≤ fuel
        → Stored storing (receive_chunks k fuel o rounds (length bs) (c, out)) c out bs
    unfolding receive_chunks
    receive_chunks-Stored rounds [] rest c out s r h = record {
      returned = refl;
      streamed = refl;
      written = sym (append-nil (storing.contents out));
    }
    receive_chunks-Stored zero (b ∷ bs) rest c out s r h = absurd (omega arith)
    receive_chunks-Stored (suc rounds) (b ∷ bs) rest c out s r h =
        receive_round rounds (min (suc (length bs)) buffer_size) (b ∷ bs) rest c out s h
          (omega arith) (omega arith)
          (λ d out' t p.
            receive_chunks-Stored rounds (drop (min (suc (length bs)) buffer_size) (b ∷ bs)) rest d
              out' t (omega (arith, length-drop (min (suc (length bs)) buffer_size) (b ∷ bs))) p)
