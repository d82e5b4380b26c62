-- ===== src/Raze/Types.antt =====
-- include/STManager/raze_update.h: the structs of an update; `std::map` over texts and
-- `to_lower_ascii` of src/raze_update.cpp.
use stmanager.Prelude.{
  ℕ, ◌+◌, ◌-◌, Text, Bool, leb, ◌&&◌, text_eq, Option, none, some, List, [], ◌∷◌, if◌then◌else◌,
}
use stmanager.Json.{text_lt}

-- A `std::map`: the pairs in the order of their keys, each key once.
abbrev pub TextMap {ℓ} : Type ℓ → Type ℓ
TextMap A = List (Text × A)

module _ {ℓ} {A : Type ℓ} where
  -- `find`, and `none` at `end()`.
  unfoldable pub lookup : Text → TextMap A → Option A
  lookup key [] = none
  lookup key ((name, value) ∷ rest) = if text_eq name key then some value else lookup key rest

  -- `operator[]` with an assignment.
  unfoldable pub assign : Text → A → TextMap A → TextMap A
  assign key value [] = (key, value) ∷ []
  assign key value ((name, old) ∷ rest) =
      let later = assign key value rest in
      if text_eq name key
      then (key, value) ∷ rest
      else if text_lt key name
      then (key, value) ∷ (name, old) ∷ rest
      else (name, old) ∷ later

abbrev pub lower_char : ℕ → ℕ
lower_char c = if leb b'A' c && leb c b'Z' then c - b'A' + b'a' else c

unfoldable pub to_lower_ascii : Text → Text
to_lower_ascii [] = []
to_lower_ascii (c ∷ rest) = lower_char c ∷ to_lower_ascii rest

pub record RazeReleaseInfo : Type 0 where
  pub tag_name : Text
  pub version_json_url : Text
  pub asset_download_urls : TextMap Text

pub record RazePackageInfo : Type 0 where
  pub name : Text
  pub file : Text
  pub hash : Text

pub record RazeVersionManifest : Type 0 where
  pub version : Text
  pub hash_algorithm : Text
  pub packages : TextMap RazePackageInfo
  pub raw_json : Text

pub record RazePackageUpdate : Type 0 where
  pub name : Text
  pub file : Text
  pub download_url : Text
  pub local_hash : Text
  pub remote_hash : Text
  pub reason : Text
  pub needs_download : Bool
