-- ===== src/Archive/Answers.antt =====
-- That the walks of src/path_safety.cpp for an archive entry return a status.
use stmanager.Prelude.{
  ℕ, Text, Bool, true, false, is_empty, List, [], ◌∷◌, not, ◌&&◌, ◌≡◌, refl, arith,
}
use stmanager.Status.{Result, ok, err, looping, threw, Exec, continue}
use stmanager.PathSafety.Disk.{Disk}
use stmanager.PathSafety.Paths.{
  split_path, join_path, validate_parts, validate_archive_relative_path, join_destination_path,
}
use stmanager.PathSafety.Ensure.{
  ensure_component, entry_loop, ensure_archive_entry_directory_impl, reject_existing_symlink,
}
use stmanager.Client.Branches.{returns_status}

pub continue-returns :
    {S A B : Type 0} (r : Result A) (f : A → Exec S B) (s : S)
    → returns_status r ≡ true
    → ((a : A) → returns_status (f a s).0 ≡ true)
    → returns_status (continue r f s).0 ≡ true
continue-returns (ok a) f s h k = k a
continue-returns (err e) f s h k = refl
continue-returns looping f s h k = h
continue-returns (threw what) f s h k = h

cases-return :
    {S B : Type 0} (b : Bool) (m n : Exec S B) (s : S)
    → returns_status (m s).0 ≡ true
    → returns_status (n s).0 ≡ true
    → returns_status ((elim b as (λ _. Exec S B) [ true ↦ m | false ↦ n ]) s).0 ≡ true
cases-return true m n s h k = h
cases-return false m n s h k = k

validate_parts-returns : (parts : List Text) → returns_status (validate_parts parts) ≡ true
unfolding validate_parts
validate_parts-returns [] = refl
validate_parts-returns (part ∷ rest) = ground (arith, validate_parts-returns rest)

validate_archive_relative_path-returns :
    (path : Text) → returns_status (validate_archive_relative_path path) ≡ true
unfolding validate_archive_relative_path
validate_archive_relative_path-returns [] = refl
validate_archive_relative_path-returns (first ∷ rest) =
    ground (arith, validate_parts-returns (split_path (first ∷ rest)))

pub join_destination_path-returns :
    (root path : Text) → returns_status (join_destination_path root path) ≡ true
unfolding join_destination_path
join_destination_path-returns root path =
    ground (arith, validate_archive_relative_path-returns path)

module _ (os : Disk) where
  ensure_component-returns :
      (path : Text) (mode : ℕ) (s : os.State)
      → returns_status (ensure_component os false path mode s).0 ≡ true
  unfolding ensure_component
  ensure_component-returns path mode s = ground arith

  pub reject_existing_symlink-returns :
      (path : Text) (s : os.State) → returns_status (reject_existing_symlink os path s) ≡ true
  unfolding reject_existing_symlink
  reject_existing_symlink-returns path s = ground arith

  entry_loop-returns :
      (include_leaf : Bool) (mode : ℕ) (current : Text) (parts : List Text) (s : os.State)
      → returns_status (entry_loop os include_leaf mode current parts s).0 ≡ true
  unfolding entry_loop
  entry_loop-returns include_leaf mode current [] s = refl
  entry_loop-returns include_leaf mode current (part ∷ rest) s =
      let x = ensure_component os false (join_path current part) mode s in
      cases-return (is_empty part) _ _ s (entry_loop-returns include_leaf mode current rest s) (
        cases-return (is_empty rest && not include_leaf) _ _ s refl (
          continue-returns x.0 _ x.1 (ensure_component-returns (join_path current part) mode s)
            (λ u. entry_loop-returns include_leaf mode (join_path current part) rest x.1)))

  pub ensure_archive_entry_directory_impl-returns :
      (root path : Text) (mode : ℕ) (include_leaf : Bool) (s : os.State)
      → returns_status (ensure_archive_entry_directory_impl os root path mode include_leaf s).0
        ≡ true
  unfolding ensure_archive_entry_directory_impl
  ensure_archive_entry_directory_impl-returns root path mode include_leaf s =
      continue-returns (validate_archive_relative_path path) _ s
        (validate_archive_relative_path-returns path)
        (λ u. entry_loop-returns include_leaf mode root (split_path path) s)
