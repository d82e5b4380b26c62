-- ===== src/Status.antt =====
-- include/STManager/data.h: the status codes and the `Status` that every operation returns.
--
-- A function that returns a `Status` and fills an output parameter is an action of `Exec`: `ok a`
-- is `Status::ok_status()` with the output `a`, and `err` is a status that is not ok. `looping`
-- says that the fuel of a `while` loop ran out, and `threw` that an exception with this `what()`
-- leaves the function. What was changed before an error stays changed, so the state comes back
-- beside it too.
use stmanager.Prelude.{Text, ◌≡◌, refl}

pub data StatusCode : Type 0 where
  ok_code invalid_root missing_extensions_dir missing_data_dir io_error archive_error : StatusCode
  invalid_archive_entry unsupported_archive_entry discovery_error sync_protocol_error : StatusCode
  unauthorized invalid_manifest network_error hash_mismatch : StatusCode

pub record Status : Type 0 where
  pub code : StatusCode
  pub message : Text

pub data Result {ℓ} (A : Type ℓ) : Type ℓ where
  ok : A → Result A
  err : Status → Result A
  looping : Result A
  threw : Text → Result A

abbrev pub status : StatusCode → Text → Status
status c m = record { code = c; message = m }

abbrev pub fail {ℓ} : {A : Type ℓ} → StatusCode → Text → Result A
fail c m = err (status c m)

abbrev pub Exec {ℓ} : Type ℓ → Type ℓ → Type ℓ
Exec S A = S → Result A × S

module _ {ℓ} {S A : Type ℓ} where
  abbrev pub pure : A → Exec S A
  pure a s = (ok a, s)

  abbrev pub lift : Result A → Exec S A
  lift r s = (r, s)

  abbrev pub throw : StatusCode → Text → Exec S A
  throw c m s = (fail c m, s)

module _ {ℓ} {S A B : Type ℓ} where
  abbrev pub continue : Result A → (A → Exec S B) → Exec S B
  continue (ok a) f s = f a s
  continue (err e) f s = (err e, s)
  continue looping f s = (looping, s)
  continue (threw what) f s = (threw what, s)

  infixl 10 ◌>>=◌ ◌>>◌
  abbrev pub ◌>>=◌ : Exec S A → (A → Exec S B) → Exec S B
  ◌>>=◌ m f s = let (r, s') = m s in continue r f s'

  abbrev pub ◌>>◌ : Exec S A → Exec S B → Exec S B
  m >> n = m >>= λ _. n

  -- What a bind that succeeds says of its parts.
  pub bind-eq-ok :
      (m : Exec S A) (f : A → Exec S B) (s : S) {b : B}
      → ((m >>= f) s).0 ≡ ok b
      → (a : A) × ((m s).0 ≡ ok a) × ((f a (m s).1).0 ≡ ok b) × ((m >>= f) s ≡ f a (m s).1)
  bind-eq-ok m f s {b} h = go (m s).0 refl h
    where
      go :
          (r : Result A)
          → (m s).0 ≡ r
          → (continue r f (m s).1).0 ≡ ok b
          → (a : A) × ((m s).0 ≡ ok a) × ((f a (m s).1).0 ≡ ok b) × ((m >>= f) s ≡ f a (m s).1)
      go (ok a) e k = (a, e, k, rw e)
      go (err _) e k = cc
      go looping e k = cc
      go (threw _) e k = cc
