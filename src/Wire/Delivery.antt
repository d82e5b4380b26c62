-- ===== src/Wire/Delivery.antt =====
-- Over a reliable connection the loops of src/tcp_transport.cpp end and move every byte.
use stmanager.Prelude.{
  ℕ, zero, suc, ◌+◌, ◌-◌, ◌≤◌, Text, length, drop, List, [], ◌∷◌, ◌++◌, ◌≡◌, refl, sym, ◌∙◌, arith,
  append_assoc, append-nil, ap, length-drop,
}
use stmanager.Status.{Result, ok, Exec, ◌>>=◌}
use stmanager.Wire.Socket.{
  Received, bytes, Sent, taken, Socket, View, IsReliable, IsGoodReceive, IsGoodSend,
}
use stmanager.Wire.Transfer.{write_all, read_loop, read_all}

pub append_cancel {ℓ} : {A : Type ℓ} (xs ys zs : List A) → xs ++ ys ≡ xs ++ zs → ys ≡ zs
append_cancel [] ys zs e = e
append_cancel (x ∷ xs) ys zs e = append_cancel xs ys zs (cc)

module _ {ℓ} {A : Type ℓ} where
  -- Of two beginnings of one list the shorter one begins the longer one.
  pub append_split :
      (xs ys us vs : List A)
      → xs ++ ys ≡ us ++ vs
      → length xs ≤ length us
      → (us ≡ xs ++ drop (length xs) us) × (ys ≡ drop (length xs) us ++ vs)
  append_split [] ys us vs e h = (refl, e)
  append_split (x ∷ xs) ys [] vs e h = absurd (omega arith)
  append_split (x ∷ xs) ys (u ∷ us) vs e h =
      let (p, q) = append_split xs ys us vs (cc) (omega arith) in (cc, q)

module _ {k : Socket} (v : View k) where
  -- A run that returned `value`, read `moved` from the stream and sent `sent`.
  pub record Done {ℓ} {A : Type ℓ} (r : Result A × k.Conn) (c : k.Conn) (value : A)
      (moved sent : Text) : Type ℓ where
    pub returned : r.0 ≡ ok value
    pub streamed : v.stream c ≡ moved ++ v.stream r.1
    pub sent_out : v.output r.1 ≡ v.output c ++ sent
    pub patience : v.interrupts r.1 ≤ v.interrupts c

  -- The effect of the first call before that of the rest of the loop.
  Done-after {ℓ} :
      {A : Type ℓ} {r : Result A × k.Conn} {value : A} (c c' : k.Conn)
      (b moved sent sent' whole : Text)
      → v.stream c ≡ b ++ v.stream c'
      → v.output c' ++ sent' ≡ v.output c ++ sent
      → v.interrupts c' ≤ v.interrupts c
      → whole ≡ b ++ moved
      → Done r c' value moved sent'
      → Done r c value whole sent
  Done-after {r} c c' b moved sent sent' whole es eo h ew d = record {
    returned = d.returned;
    streamed = rw (es, d.streamed, ew) (sym (append_assoc b moved (v.stream r.1)));
    sent_out = d.sent_out ∙ eo;
    patience = omega (arith, d.patience);
  }

  Done-cast :
      (fuel n m : ℕ) (received value value' moved : Text) (c : k.Conn)
      → n ≡ m
      → value ≡ value'
      → Done (read_loop k fuel received m c) c value' moved []
      → Done (read_loop k fuel received n c) c value moved []
  Done-cast fuel n m received value value' moved c p q d = rw (p, q) d

  module _ (reliable : IsReliable v) where
    pub write_all-Done :
        (fuel : ℕ) (b : Text) (c : k.Conn)
        → v.interrupts c + length b ≤ fuel
        → Done (write_all k fuel b c) c tt [] b
    unfolding write_all
    write_all-Done fuel [] c h = record {
      returned = refl;
      streamed = refl;
      sent_out = sym (append-nil (v.output c));
      patience = omega arith;
    }
    write_all-Done zero (x ∷ bs) c h = absurd (omega arith)
    write_all-Done (suc fuel) (x ∷ bs) c h =
        go (write_all-Done fuel) (k.send c (x ∷ bs)).0 refl
          (reliable.sends c (x ∷ bs) (omega arith))
      where
        go :
            ((b : Text) (d : k.Conn)
              → v.interrupts d + length b ≤ fuel
              → Done (write_all k fuel b d) d tt [] b)
            → (a : Sent) → (k.send c (x ∷ bs)).0 ≡ a
            → IsGoodSend v c (x ∷ bs) a (k.send c (x ∷ bs)).1
            → Done (write_all k (suc fuel) (x ∷ bs) c) c tt [] (x ∷ bs)
        go again (taken zero) e g = absurd (omega arith)
        go again (taken (suc n)) e g =
            rw (e, write_all)
              (Done-after c (k.send c (x ∷ bs)).1 [] [] (x ∷ bs) (drop n bs) [] (sym g.4) g.2 g.3
                refl
                (again (drop n bs) (k.send c (x ∷ bs)).1
                  (omega (arith, length-drop n bs, g.3, g.1))))
        go again Sent.interrupted e g =
            rw (e, write_all)
              (Done-after c (k.send c (x ∷ bs)).1 [] [] (x ∷ bs) (x ∷ bs) [] (sym g.2)
                (ap (λ t. t ++ x ∷ bs) g.0) (omega arith) refl
                (again (x ∷ bs) (k.send c (x ∷ bs)).1 (omega arith)))
        go again (Sent.broken m) e g = absurd g

    read_loop-Done :
        (fuel : ℕ) (received bs rest : Text) (c : k.Conn)
        → v.stream c ≡ bs ++ rest
        → v.interrupts c + length bs ≤ fuel
        → Done (read_loop k fuel received (length bs) c) c (received ++ bs) bs []
    unfolding read_loop
    read_loop-Done fuel received [] rest c s h = record {
      returned = ap ok (sym (append-nil received));
      streamed = refl;
      sent_out = sym (append-nil (v.output c));
      patience = omega arith;
    }
    read_loop-Done zero received (x ∷ bs) rest c s h = absurd (omega arith)
    read_loop-Done (suc fuel) received (x ∷ bs) rest c s h =
        go (read_loop-Done fuel) (k.recv c (suc (length bs))).0 refl
          (reliable.receives c (suc (length bs)) (omega arith) (rw s (omega arith)))
      where
        go :
            ((received bs rest : Text) (d : k.Conn)
              → v.stream d ≡ bs ++ rest
              → v.interrupts d + length bs ≤ fuel
              → Done (read_loop k fuel received (length bs) d) d (received ++ bs) bs [])
            → (a : Received) → (k.recv c (suc (length bs))).0 ≡ a
            → IsGoodReceive v c (suc (length bs)) a (k.recv c (suc (length bs))).1
            → Done
                (read_loop k (suc fuel) received (suc (length bs)) c)
                c
                (received ++ x ∷ bs)
                (x ∷ bs)
                []
        go again (bytes []) e g = absurd (omega arith)
        go again (bytes (b ∷ us)) e g =
            let left = drop (length us) bs in
            let (whole, after) =
              append_split (b ∷ us) (v.stream (k.recv c (suc (length bs))).1) (x ∷ bs) rest
                (sym g.2 ∙ s) g.1 in
            rw (e, read_loop)
              (Done-after c (k.recv c (suc (length bs))).1 (b ∷ us) left [] [] (x ∷ bs) g.2
                (ap (λ t. t ++ []) g.4) g.3 whole
                (Done-cast fuel (length bs - length us) (length left) (received ++ b ∷ us)
                  (received ++ x ∷ bs) ((received ++ b ∷ us) ++ left) left _
                  (sym (length-drop (length us) bs))
                  (ap (λ t. received ++ t) whole ∙ sym (append_assoc received (b ∷ us) left))
                  (again (received ++ b ∷ us) left rest (k.recv c (suc (length bs))).1 after
                    (omega (arith, length-drop (length us) bs, g.3, g.1)))))
        go again Received.interrupted e g =
            rw (e, read_loop)
              (Done-after c (k.recv c (suc (length bs))).1 [] (x ∷ bs) [] [] (x ∷ bs) g.0
                (ap (λ t. t ++ []) g.2) (omega arith) refl
                (again received (x ∷ bs) rest (k.recv c (suc (length bs))).1 (sym g.0 ∙ s)
                  (omega arith)))
        go again (Received.broken m) e g = absurd g

  pub Done-bind :
      {A B : Type 0} (m : Exec k.Conn A) (f : A → Exec k.Conn B) (c : k.Conn) (a : A) (b : B)
      (moved moved' sent sent' : Text)
      → Done (m c) c a moved sent
      → Done (f a (m c).1) (m c).1 b moved' sent'
      → Done ((m >>= f) c) c b (moved ++ moved') (sent ++ sent')
  Done-bind m f c a b moved moved' sent sent' d e = rw d.returned (record {
    returned = e.returned;
    streamed = d.streamed ∙ (ap (λ t. moved ++ t) e.streamed ∙ sym (append_assoc moved moved' _));
    sent_out =
        e.sent_out ∙ (ap (λ t. t ++ sent') d.sent_out ∙ append_assoc (v.output c) sent sent');
    patience = omega (arith, d.patience, e.patience);
  })

  pub Done-pure {ℓ} : {A : Type ℓ} (c : k.Conn) (a : A) → Done (ok a, c) c a [] []
  Done-pure c a = record {
    returned = refl;
    streamed = refl;
    sent_out = sym (append-nil (v.output c));
    patience = omega arith;
  }

  module _ (reliable : IsReliable v) where
    pub read_all-Done :
        (fuel : ℕ) (bs rest : Text) (c : k.Conn)
        → v.stream c ≡ bs ++ rest
        → v.interrupts c + length bs ≤ fuel
        → Done (read_all k fuel (length bs) c) c bs bs []
    unfolding read_all
    read_all-Done fuel bs rest c = read_loop-Done reliable fuel [] bs rest c
