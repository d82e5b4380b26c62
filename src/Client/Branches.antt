-- ===== src/Client/Branches.antt =====
-- What holds after the branches of an action of the client: after a call whose status is tested, and
-- after a test.
use stmanager.Prelude.{Text, Bool, true, false, ◌≡◌, refl, if◌then◌else◌}
use stmanager.Status.{Status, Result, ok, err, looping, threw, Exec, lift, ◌>>=◌}
use stmanager.Server.Requests.{settle}

module _ {S A B : Type 0} (Q : Result B × S → Type 0) where
  -- What holds of the three ways on from a call holds after it.
  pub settle-holds :
      (r : Result A) (failed : Status → Exec S B) (done : A → Exec S B) (s : S)
      → Q (looping, s)
      → ((what : Text) → Q (threw what, s))
      → ((e : Status) → r ≡ err e → Q (failed e s))
      → ((a : A) → r ≡ ok a → Q (done a s))
      → Q (settle r failed done s)
  settle-holds (ok a) failed done s l w f h = h a refl
  settle-holds (err e) failed done s l w f h = f e refl
  settle-holds looping failed done s l w f h = l
  settle-holds (threw what) failed done s l w f h = w what

module _ {S A B : Type 0} (Q : Result B × S → Type 0) where
  pub lift-holds :
      (r : Result A) (f : A → Exec S B) (s : S)
      → Q (looping, s)
      → ((what : Text) → Q (threw what, s))
      → ((e : Status) → Q (err e, s))
      → ((a : A) → r ≡ ok a → Q (f a s))
      → Q ((lift r >>= f) s)
  lift-holds (ok a) f s l w g h = h a refl
  lift-holds (err e) f s l w g h = g e
  lift-holds looping f s l w g h = l
  lift-holds (threw what) f s l w g h = w what

  pub ok-holds :
      (r : Result A) (f : A → Exec S B) (s : S) {a : A}
      → r ≡ ok a
      → Q (f a s)
      → Q ((lift r >>= f) s)
  ok-holds r f s e q = rw e q

  pub bind-holds :
      (m : Exec S A) (f : A → Exec S B) (s : S)
      → Q (looping, (m s).1)
      → ((what : Text) → Q (threw what, (m s).1))
      → ((e : Status) → Q (err e, (m s).1))
      → ((a : A) → (m s).0 ≡ ok a → Q (f a (m s).1))
      → Q ((m >>= f) s)
  bind-holds m f s = lift-holds (m s).0 f (m s).1

module _ {S B : Type 0} (Q : Result B × S → Type 0) where
  pub choice-holds :
      (b : Bool) (m n : Exec S B) (s : S)
      → (b ≡ true → Q (m s))
      → (b ≡ false → Q (n s))
      → Q ((if b then m else n) s)
  choice-holds true m n s h g = h refl
  choice-holds false m n s h g = g refl

  pub done_choice-holds :
      (b : Bool) (x y : Result B × S)
      → (b ≡ true → Q x)
      → (b ≡ false → Q y)
      → Q (if b then x else y)
  done_choice-holds true x y h g = h refl
  done_choice-holds false x y h g = g refl

-- A call that ends with a status, be it ok or not: no exception leaves it.
abbrev pub returns_status {ℓ} : {A : Type ℓ} → Result A → Bool
returns_status (ok a) = true
returns_status (err e) = true
returns_status looping = false
returns_status (threw what) = false
