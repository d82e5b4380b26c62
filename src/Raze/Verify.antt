-- ===== src/Raze/Verify.antt =====
-- src/raze_update.cpp: `compute_file_sha256` and `verify_raze_package_file`.
use stmanager.Prelude.{
  ℕ, zero, suc, ◌+◌, ◌-◌, ◌*◌, ◌/◌, ◌%◌, Text, codes, text_eq, ltb, length, take, drop, [], ◌∷◌,
  ◌++◌, if◌then◌else◌,
}
use stmanager.Status.{
  Result, ok, err, looping, threw, fail, io_error, invalid_manifest, hash_mismatch,
}
use stmanager.Sha256.Context.{Sha256Context, new_context, update, final_hash}
use stmanager.Raze.Types.{to_lower_ascii}
use stmanager.Raze.Manifests.{sha256_name}

-- A file as reading it finds it: it does not open, reading stops before its end after some bytes,
-- or it gives all its bytes.
pub data FileRead : Type 0 where
  unopened : FileRead
  broken_off : Text → FileRead
  whole : Text → FileRead

abbrev pub download_buffer_size : ℕ
download_buffer_size = 64 * 1024

-- The rounds of `input.read` over the bytes that are left, one buffer a round.
unfoldable pub hash_loop : ℕ → Text → Sha256Context → Sha256Context
hash_loop rounds [] context = context
hash_loop zero (b ∷ bs) context = context
hash_loop (suc rounds) (b ∷ bs) context =
    hash_loop rounds (drop download_buffer_size (b ∷ bs))
      (update context (take download_buffer_size (b ∷ bs)))

abbrev pub hex_digit : ℕ → ℕ
hex_digit n = if ltb n 10 then b'0' + n else b'a' + (n - 10)

-- `std::hex` with two places for each byte.
unfoldable pub hex : Text → Text
hex [] = []
hex (byte ∷ rest) = hex_digit (byte / 16) ∷ hex_digit (byte % 16) ∷ hex rest

module _ (read : Text → FileRead) where
  unfoldable pub compute_file_sha256 : Text → Result Text
  unfolding hash_loop hex
  compute_file_sha256 file_path = elim (read file_path) [
    | unopened ↦ fail io_error (codes "stage=raze.sha256.open; failed opening " ++ file_path)
    | broken_off bytes ↦
        fail io_error (codes "stage=raze.sha256.read; failed reading " ++ file_path)
    | whole bytes ↦ ok (hex (final_hash (hash_loop (length bytes) bytes new_context)))
  ]

  unfoldable pub compare_hashes : Text → Text → Text → Result (Unit {0})
  unfolding to_lower_ascii
  compare_hashes file_path expected_hash actual_hash =
      if text_eq (to_lower_ascii actual_hash) (to_lower_ascii expected_hash)
      then ok tt
      else fail hash_mismatch (
          codes "stage=raze.verify.hash; hash mismatch for "
          ++ file_path
          ++ codes "; expected="
          ++ expected_hash
          ++ codes "; actual="
          ++ actual_hash)

  unfoldable pub verify_raze_package_file : Text → Text → Text → Result (Unit {0})
  unfolding compute_file_sha256 compare_hashes to_lower_ascii
  verify_raze_package_file file_path hash_algorithm expected_hash =
      if text_eq (to_lower_ascii hash_algorithm) sha256_name
      then elim (compute_file_sha256 file_path) [
        | ok actual_hash ↦ compare_hashes file_path expected_hash actual_hash
        | err e ↦ err e
        | looping ↦ looping
        | threw what ↦ threw what
      ]
      else fail invalid_manifest (codes "stage=raze.verify.algorithm; only sha256 is supported")
