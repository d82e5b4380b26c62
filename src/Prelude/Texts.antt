-- ===== src/Prelude/Texts.antt =====
-- A `std::string` is the list of its bytes. A literal of the source is `codes "..."`, which stays
-- shut in proofs.
use Prim.Native.Nat.{ℕ}
use Prim.Native.Char.{code}
use Prim.Native.String.{String}
use mathlib.Core.Path.{◌≡◌, refl}
use mathlib.Core.Logic.{◌↔◌, ◌≢◌}
use mathlib.Core.Bool.{Bool, true, false, ◌&&◌, ◌||◌}
use mathlib.Core.List.{List, [], ◌∷◌}
use native.Mathlib.Omega.{arith}
use stmanager.Prelude.Tests.{◌==◌}

abbrev pub Text : Type 0
Text = List ℕ

unfoldable pub codes : String → Text
codes String.[] = []
codes (String.◌∷◌ c s) = code c ∷ codes s

-- `operator==` of `std::string`.
unfoldable pub text_eq : Text → Text → Bool
text_eq [] [] = true
text_eq [] (b ∷ bs) = false
text_eq (a ∷ as') [] = false
text_eq (a ∷ as') (b ∷ bs) = (a == b) && text_eq as' bs

-- `empty()`.
abbrev pub is_empty {ℓ} : {A : Type ℓ} → List A → Bool
is_empty [] = true
is_empty (x ∷ xs) = false

pub text_eq_sound : (a b : Text) → text_eq a b ≡ true → a ≡ b
unfolding text_eq
text_eq_sound [] [] h = refl
text_eq_sound [] (b ∷ bs) h = ground arith
text_eq_sound (a ∷ as') [] h = ground arith
text_eq_sound (a ∷ as') (b ∷ bs) h = ground (arith, text_eq_sound as' bs)

pub text_eq_refl : (a : Text) → text_eq a a ≡ true
unfolding text_eq
text_eq_refl [] = refl
text_eq_refl (a ∷ as') = ground (arith, text_eq_refl as')

pub text_eq_iff : (a b : Text) → (text_eq a b ≡ true) ↔ (a ≡ b)
text_eq_iff a b = (text_eq_sound a b, λ e. subst_right a b e)
  where
    subst_right : (a b : Text) → a ≡ b → text_eq a b ≡ true
    subst_right a b e = rw (← e) (text_eq_refl a)

pub text_eq_ne : (a b : Text) → a ≢ b → text_eq a b ≡ false
text_eq_ne a b h = ground (arith, text_eq_sound a b)

unfoldable pub is_prefix : Text → Text → Bool
is_prefix [] b = true
is_prefix (x ∷ a) [] = false
is_prefix (x ∷ a) (y ∷ b) = (x == y) && is_prefix a b

-- `b.find(a) != npos`.
unfoldable pub contains_text : Text → Text → Bool
unfolding is_prefix
contains_text a [] = is_prefix a []
contains_text a (y ∷ b) = is_prefix a (y ∷ b) || contains_text a b
