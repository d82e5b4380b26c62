-- ===== src/Raze/Checks.antt =====
-- What `verify_raze_package_file` of src/raze_update.cpp accepts.
use stmanager.Prelude.{
  ℕ, zero, suc, ◌/◌, ◌%◌, ◌≤◌, Text, true, text_eq, text_eq_sound, text_eq_refl, length, take, drop,
  take-append-drop, length-drop, [], ◌∷◌, ◌++◌, ◌≡◌, ◌↔◌, inl, inr, refl, sym, ap, ◌∙◌, arith,
  append-nil, Bool-cases,
}
use stmanager.Status.{ok}
use stmanager.Sha256.Context.{Sha256Context, new_context, update, update_byte, final_hash}
use stmanager.Sha256.Padding.{digest}
use stmanager.Sha256.Digest.{final_hash-update}
use stmanager.Raze.Types.{to_lower_ascii, lower_char}
use stmanager.Raze.Manifests.{sha256_name}
use stmanager.Raze.Verify.{
  FileRead, unopened, broken_off, whole, hash_loop, hex_digit, hex, compute_file_sha256,
  compare_hashes, verify_raze_package_file, download_buffer_size,
}

update-nil : (context : Sha256Context) → update context [] ≡ context
unfolding update
update-nil context = refl

update-append :
    (context : Sha256Context) (a b : Text) → update context (a ++ b) ≡ update (update context a) b
unfolding update
update-append context [] b = refl
update-append context (x ∷ a) b = update-append (update_byte context x) a b

hash_loop-update :
    (rounds : ℕ) (bytes : Text) (context : Sha256Context)
    → length bytes ≤ rounds
    → hash_loop rounds bytes context ≡ update context bytes
unfolding hash_loop
hash_loop-update rounds [] context h = sym (update-nil context)
hash_loop-update zero (b ∷ bs) context h = absurd (omega arith)
hash_loop-update (suc rounds) (b ∷ bs) context h =
    hash_loop-update rounds (drop download_buffer_size (b ∷ bs))
      (update context (take download_buffer_size (b ∷ bs)))
      (omega (arith, length-drop download_buffer_size (b ∷ bs)))
    ∙ (sym (update-append context (take download_buffer_size (b ∷ bs)) _)
        ∙ ap (update context) (take-append-drop download_buffer_size (b ∷ bs)))

lower_char-hex_digit : (n : ℕ) → lower_char (hex_digit n) ≡ hex_digit n
lower_char-hex_digit n = ground arith

to_lower_ascii-hex : (bytes : Text) → to_lower_ascii (hex bytes) ≡ hex bytes
unfolding hex to_lower_ascii
to_lower_ascii-hex [] = refl
to_lower_ascii-hex (b ∷ bs) =
    rw (lower_char-hex_digit (b / 16), lower_char-hex_digit (b % 16), to_lower_ascii-hex bs) refl

file_hash : (bytes : Text) → final_hash (hash_loop (length bytes) bytes new_context) ≡ digest bytes
file_hash bytes =
    ap final_hash (hash_loop-update (length bytes) bytes new_context (omega arith))
    ∙ (final_hash-update (bytes ∷ []) ∙ ap digest (append-nil bytes))

module _ (read : Text → FileRead) where
  verify_whole :
      (file_path hash_algorithm expected_hash bytes : Text)
      → read file_path ≡ whole bytes
      → to_lower_ascii hash_algorithm ≡ sha256_name
      → verify_raze_package_file read file_path hash_algorithm expected_hash
        ≡ compare_hashes read file_path expected_hash (hex (digest bytes))
  unfolding verify_raze_package_file compute_file_sha256
  verify_whole path algorithm expected bytes e a =
      rw (a, text_eq_refl sha256_name, e, file_hash bytes) refl

  compare_hashes-accepts :
      (file_path expected_hash bytes : Text)
      → (compare_hashes read file_path expected_hash (hex bytes) ≡ ok tt)
        ↔ (hex bytes ≡ to_lower_ascii expected_hash)
  unfolding compare_hashes
  compare_hashes-accepts path expected bytes = rw (to_lower_ascii-hex bytes) (
    (λ h. ground (arith, text_eq_sound (hex bytes) (to_lower_ascii expected))),
    (λ e. rw (e, text_eq_refl (to_lower_ascii expected)) refl),
  )

  -- What makes the check fail before the hashes are compared.
  verify_raze_package_file-reads :
      (file_path hash_algorithm expected_hash : Text)
      → verify_raze_package_file read file_path hash_algorithm expected_hash ≡ ok tt
      → (to_lower_ascii hash_algorithm ≡ sha256_name)
        × ((bytes : Text) × (read file_path ≡ whole bytes))
  unfolding verify_raze_package_file compute_file_sha256
  verify_raze_package_file-reads path algorithm expected h =
      elim (Bool-cases (text_eq (to_lower_ascii algorithm) sha256_name)) [
        | inl e ↦ (text_eq_sound _ _ e, opened e (read path) refl)
        | inr e ↦ absurd (ground arith)
      ]
    where
      opened :
          text_eq (to_lower_ascii algorithm) sha256_name ≡ true
          → (r : FileRead) → read path ≡ r
          → (bytes : Text) × (r ≡ whole bytes)
      opened a unopened e = absurd (ground arith)
      opened a (broken_off bytes) e = absurd (ground arith)
      opened a (whole bytes) e = (bytes, refl)

  -- A package is accepted exactly if the hash algorithm is SHA-256, in letters of either case, the
  -- file can be read to its end, and the SHA-256 hash of its bytes, in hexadecimal, is the expected
  -- one, in letters of either case.
  pub verify_raze_package_file-accepts :
      (file_path hash_algorithm expected_hash : Text)
      → (verify_raze_package_file read file_path hash_algorithm expected_hash ≡ ok tt) ↔ (
          (to_lower_ascii hash_algorithm ≡ sha256_name)
          × ((bytes : Text) × (read file_path ≡ whole bytes)
              × (hex (digest bytes) ≡ to_lower_ascii expected_hash)))
  verify_raze_package_file-accepts path algorithm expected = (
    (λ h.
        let (a, (bytes, e)) = verify_raze_package_file-reads path algorithm expected h in
        (
          a,
          (
            bytes,
            e,
            (compare_hashes-accepts path expected (digest bytes)).0
                (sym (verify_whole path algorithm expected bytes e a) ∙ h),
          ),
        )),
    (λ (a, (bytes, e, same)).
        verify_whole path algorithm expected bytes e a
        ∙ (compare_hashes-accepts path expected (digest bytes)).1 same),
  )
