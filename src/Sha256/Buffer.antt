-- ===== src/Sha256/Buffer.antt =====
-- What the writes of Sha256Context do to `data_`, seen as the bytes before and after the place.
use stmanager.Prelude.{
  ℕ, zero, suc, ◌+◌, ◌/◌, ◌%◌, ◌^◌, Text, length, set, replicate, List, [], ◌∷◌, ◌++◌, ◌≡◌, refl,
  sym, ap, ◌∙◌, arith, append_assoc, length-append,
}
use stmanager.Sha256.Context.{zero_fill, put_length}

-- The eight bytes of a length, the highest first.
abbrev pub length_bytes : ℕ → Text
length_bytes n =
    n / 2 ^ 56 % 256
    ∷ n / 2 ^ 48 % 256
    ∷ n / 2 ^ 40 % 256
    ∷ n / 2 ^ 32 % 256
    ∷ n / 2 ^ 24 % 256
    ∷ n / 2 ^ 16 % 256
    ∷ n / 2 ^ 8 % 256
    ∷ n % 256
    ∷ []

pub set-append {ℓ} :
    {A : Type ℓ} (xs ys : List A) (i j : ℕ) (v : A)
    → j ≡ length xs + i
    → set (xs ++ ys) j v ≡ xs ++ set ys i v
set-append [] ys i j v e = ap (λ n. set ys n v) (omega arith)
set-append (x ∷ xs) ys i zero v e = absurd (omega arith)
set-append (x ∷ xs) ys i (suc j) v e = ap (λ l. x ∷ l) (set-append xs ys i j v (omega arith))

pub zero_fill-append :
    (xs ys zs : Text) (count index : ℕ)
    → count ≡ length ys
    → index ≡ length xs
    → zero_fill count index (xs ++ (ys ++ zs)) ≡ xs ++ (replicate count 0 ++ zs)
unfolding zero_fill
zero_fill-append xs [] zs zero index c i = refl
zero_fill-append xs [] zs (suc n) index c i = absurd (omega arith)
zero_fill-append xs (y ∷ ys) zs zero index c i = absurd (omega arith)
zero_fill-append xs (y ∷ ys) zs (suc n) index c i =
    ap (zero_fill n (index + 1)) (
      set-append xs (y ∷ (ys ++ zs)) 0 index 0 (omega arith)
      ∙ sym (append_assoc xs (0 ∷ []) (ys ++ zs)))
    ∙ (zero_fill-append (xs ++ 0 ∷ []) ys zs n (index + 1) (omega arith)
          (omega (arith, length-append xs (0 ∷ [])))
        ∙ append_assoc xs (0 ∷ []) (replicate n 0 ++ zs))

pub put_length-append :
    (n : ℕ) (xs ys : Text)
    → length xs ≡ 56
    → length ys ≡ 8
    → put_length n (xs ++ ys) ≡ xs ++ length_bytes n
unfolding put_length
put_length-append n xs (p ∷ q ∷ r ∷ s ∷ t ∷ u ∷ v ∷ w ∷ []) h k = rw (
  set-append xs _ 7 63 (n % 256) (omega arith),
  set-append xs _ 6 62 (n / 2 ^ 8 % 256) (omega arith),
  set-append xs _ 5 61 (n / 2 ^ 16 % 256) (omega arith),
  set-append xs _ 4 60 (n / 2 ^ 24 % 256) (omega arith),
  set-append xs _ 3 59 (n / 2 ^ 32 % 256) (omega arith),
  set-append xs _ 2 58 (n / 2 ^ 40 % 256) (omega arith),
  set-append xs _ 1 57 (n / 2 ^ 48 % 256) (omega arith),
  set-append xs _ 0 56 (n / 2 ^ 56 % 256) (omega arith),
)
put_length-append n xs _ h k = absurd (omega arith)
