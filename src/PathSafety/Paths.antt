-- ===== src/PathSafety/Paths.antt =====
-- src/path_safety.cpp: paths as texts, and the check of a path that an archive names.
use stmanager.Prelude.{
  ℕ, Text, Bool, codes, text_eq, is_empty, last_elem?, Option, none, some, List, [], ◌∷◌, ◌++◌,
  ◌==◌, ◌&&◌, ◌||◌, if◌then◌else◌,
}
use stmanager.Status.{Result, ok, fail, invalid_archive_entry}

abbrev pub slash : Text
slash = b'/' ∷ []

-- The loop over the characters, `current` being `current_part`.
unfoldable pub split_from : Text → Text → List Text
split_from current [] = current ∷ []
split_from current (value ∷ rest) = elim (value == b'/') [
  | Bool.true ↦ current ∷ split_from [] rest
  | Bool.false ↦ split_from (current ++ value ∷ []) rest
]

unfoldable pub split_path : Text → List Text
unfolding split_from
split_path path = split_from [] path

unfoldable pub ends_with_slash : Option ℕ → Bool
ends_with_slash none = Bool.false
ends_with_slash (some value) = value == b'/'

unfoldable pub join_path : Text → Text → Text
unfolding ends_with_slash
join_path lhs rhs =
    if is_empty lhs
    then rhs
    else if ends_with_slash (last_elem? lhs)
    then lhs ++ rhs
    else lhs ++ slash ++ rhs

unfoldable pub is_forbidden : Text → Bool
is_forbidden part = is_empty part || text_eq part (codes ".") || text_eq part (codes "..")

-- The loop over the parts; the last part may be empty.
unfoldable pub validate_parts : List Text → Result (Unit {0})
validate_parts [] = ok tt
validate_parts (part ∷ rest) =
    let more = validate_parts rest in
    if is_empty part && is_empty rest
    then more
    else if is_forbidden part
    then fail invalid_archive_entry (codes "Archive path contains invalid segment")
    else more

unfoldable pub validate_archive_relative_path : Text → Result (Unit {0})
unfolding validate_parts
validate_archive_relative_path [] = fail invalid_archive_entry (codes "Archive entry path is empty")
validate_archive_relative_path (first ∷ rest) =
    if first == b'/'
    then fail invalid_archive_entry (codes "Absolute archive path is not allowed")
    else validate_parts (split_path (first ∷ rest))

-- `*destination_path` is written only after the check.
unfoldable pub join_destination_path : Text → Text → Result Text
join_destination_path destination_root archive_path =
    elim (validate_archive_relative_path archive_path) [
      | Result.ok _ ↦ ok (join_path destination_root archive_path)
      | Result.err e ↦ Result.err e
      | Result.looping ↦ Result.looping
      | Result.threw what ↦ Result.threw what
    ]

-- `file_path.substr(0, file_path.find_last_of('/'))`, and `none` if there is no slash.
unfoldable pub parent_directory : Text → Option Text
parent_directory [] = none
parent_directory (value ∷ rest) = elim (parent_directory rest) [
  | some parent ↦ some (value ∷ parent)
  | none ↦ if value == b'/' then some [] else none
]
