-- ===== src/Raze/Releases.antt =====
-- src/raze_update.cpp: `validate_release_asset` and `parse_release_json`.
use stmanager.Prelude.{
  Text, Bool, false, codes, text_eq, is_empty, Option, none, some, [], ◌++◌, if◌then◌else◌,
}
use stmanager.Status.{ok, fail, Exec, invalid_manifest}
use stmanager.Json.{
  Json, boolean, array, Items, end, item, JsonLibrary, find, as_string, as_array, is_object,
  parse_error,
}
use stmanager.Raze.Types.{RazeReleaseInfo, assign}

abbrev add_asset : Option Text → Option Text → RazeReleaseInfo → RazeReleaseInfo
add_asset (some name) (some download_url) info =
    let urls = assign name download_url info.asset_download_urls in
    if text_eq name (codes "version.json")
    then record info { asset_download_urls = urls; version_json_url = download_url }
    else record info { asset_download_urls = urls }
add_asset _ _ info = info

-- An asset without a name or a URL is passed over.
unfoldable pub validate_release_asset : Json → RazeReleaseInfo → RazeReleaseInfo
validate_release_asset asset info =
    if is_object asset
    then add_asset (as_string (find (codes "name") asset))
        (as_string (find (codes "browser_download_url") asset)) info
    else info

unfoldable pub validate_assets : Items → RazeReleaseInfo → RazeReleaseInfo
unfolding validate_release_asset
validate_assets end info = info
validate_assets (item asset rest) info = validate_assets rest (validate_release_asset asset info)

abbrev is_true : Option Json → Bool
is_true (some (boolean b)) = b
is_true _ = false

-- A release with a tag and a list of assets that is no draft, and `none` for every other.
unfoldable pub usable_release : Json → Option (Text × Items)
usable_release release =
    if is_object release
    then (if is_true (find (codes "draft") release)
        then none
        else tagged (as_string (find (codes "tag_name") release))
            (as_array (find (codes "assets") release)))
    else none
  where
    tagged : Option Text → Option Items → Option (Text × Items)
    tagged (some tag) (some assets) = some (tag, assets)
    tagged _ _ = none

-- The loop over the releases, which ends at the first usable one.
unfoldable pub release_loop : Items → Exec RazeReleaseInfo (Unit {0})
unfolding usable_release validate_assets
release_loop end info =
    (fail invalid_manifest (codes "stage=raze.release.empty; no usable release found"), info)
release_loop (item release rest) info = elim (usable_release release) [
  | none ↦ release_loop rest info
  | some (tag, assets) ↦
      let filled = validate_assets assets (record info { tag_name = tag }) in
      if is_empty filled.version_json_url
      then (
        fail invalid_manifest
            (codes "stage=raze.release.assets; latest release has no version.json asset"),
        filled,
      )
      else (ok tt, filled)
]

abbrev pub no_release : RazeReleaseInfo
no_release = record { tag_name = []; version_json_url = []; asset_download_urls = [] }

unfoldable pub parse_release_json : JsonLibrary → Text → Exec RazeReleaseInfo (Unit {0})
unfolding release_loop
parse_release_json lib release_json info = elim (lib.parse release_json) [
  | none ↦ (
    fail invalid_manifest
        (codes "stage=raze.release.parse; " ++ lib.what (parse_error release_json)),
    no_release,
  )
  | some (array releases) ↦ release_loop releases no_release
  | some other ↦ (
    fail invalid_manifest (codes "stage=raze.release.type; releases response is not an array"),
    no_release,
  )
]
