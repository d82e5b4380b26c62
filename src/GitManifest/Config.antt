-- ===== src/GitManifest/Config.antt =====
-- src/git_manifest.cpp: `parse_origin_url_from_git_config`, over the lines of the file.
use stmanager.Prelude.{
  ℕ, Text, Bool, true, false, codes, is_empty, is_prefix, text_eq, last_elem?, leb, not, Option,
  none, some, List, [], ◌∷◌, ◌==◌, ◌&&◌, ◌||◌, if◌then◌else◌,
}

-- `std::isspace` in the C locale.
abbrev pub is_space : ℕ → Bool
is_space c = c == 32 || (leb 9 c && leb c 13)

unfoldable pub trim_left : Text → Text
trim_left [] = []
trim_left (c ∷ rest) = if is_space c then trim_left rest else c ∷ rest

unfoldable pub trim_right : Text → Text
trim_right [] = []
trim_right (c ∷ rest) =
    let trimmed = trim_right rest in if is_empty trimmed && is_space c then [] else c ∷ trimmed

unfoldable pub trim_copy : Text → Text
unfolding trim_left trim_right
trim_copy input = trim_right (trim_left input)

abbrev ends_with : Option ℕ → ℕ → Bool
ends_with none c = false
ends_with (some d) c = d == c

-- The text in front of the first `=` and the text behind it.
unfoldable pub split_setting : Text → Option (Text × Text)
split_setting [] = none
split_setting (c ∷ rest) = elim (c == b'=') [
  | true ↦ some ([], rest)
  | false ↦ elim (split_setting rest) [ none ↦ none | some (key, value) ↦ some (c ∷ key, value) ]
]

-- What a trimmed line is for the loop.
pub data ConfigLine : Type 0 where
  ignored : ConfigLine
  section_start : Bool → ConfigLine
  url_setting : Text → ConfigLine

abbrev pub origin_section : Text
origin_section = codes "[remote \"origin\"]"

abbrev pub setting_line : Option (Text × Text) → ConfigLine
setting_line none = ignored
setting_line (some (key, value)) =
    if not (text_eq (trim_copy key) (codes "url"))
    then ignored
    else if is_empty (trim_copy value)
    then ignored
    else url_setting (trim_copy value)

unfoldable pub classify : Text → ConfigLine
unfolding split_setting trim_copy
classify trimmed_line =
    if is_empty trimmed_line
      || is_prefix (codes "#") trimmed_line
      || is_prefix (codes ";") trimmed_line
    then ignored
    else if is_prefix (codes "[") trimmed_line && ends_with (last_elem? trimmed_line) b']'
    then section_start (text_eq trimmed_line origin_section)
    else if not (is_prefix (codes "url") trimmed_line)
    then ignored
    else setting_line (split_setting trimmed_line)

-- The loop over the lines, with `in_origin_section`.
unfoldable pub parse_lines : Bool → List Text → Option Text
unfolding classify trim_copy
parse_lines in_origin_section [] = none
parse_lines in_origin_section (line ∷ rest) = elim (classify (trim_copy line)) [
  | ignored ↦ parse_lines in_origin_section rest
  | section_start is_origin ↦ parse_lines is_origin rest
  | url_setting url ↦ elim in_origin_section [ true ↦ some url | false ↦ parse_lines false rest ]
]

-- `none` for a file that does not open.
unfoldable pub parse_origin_url_from_git_config : Option (List Text) → Option Text
unfolding parse_lines
parse_origin_url_from_git_config none = none
parse_origin_url_from_git_config (some lines) = parse_lines false lines
