-- ===== src/Raze/Manifests.antt =====
-- src/raze_update.cpp: `parse_raze_version_manifest`.
use stmanager.Prelude.{Text, codes, text_eq, Option, none, some, [], ◌∷◌, ◌++◌, if◌then◌else◌}
use stmanager.Status.{Result, ok, err, looping, threw, fail, invalid_manifest}
use stmanager.Json.{
  Json, Members, none_left, member, JsonLibrary, find, as_string, as_object, is_object, parse_error,
}
use stmanager.Raze.Types.{TextMap, assign, to_lower_ascii, RazePackageInfo, RazeVersionManifest}

abbrev pub sha256_name : Text
sha256_name = codes "sha256"

-- The file and the hash of a package, checked in this order.
abbrev pub check_package : Text → Option Text → Option Text → Result RazePackageInfo
check_package name none hash =
    fail invalid_manifest (codes "stage=raze.manifest.package.file; package file is missing")
check_package name (some file) none =
    fail invalid_manifest (codes "stage=raze.manifest.package.hash; package hash is missing")
check_package name (some file) (some hash) =
    ok (record { name = name; file = file; hash = to_lower_ascii hash })

-- One entry of `packages`.
unfoldable pub parse_package : Text → Json → Result RazePackageInfo
parse_package name entry =
    if is_object entry
    then check_package name (as_string (find (codes "file") entry))
        (as_string (find (codes "hash") entry))
    else fail invalid_manifest (codes "stage=raze.manifest.package; package entry is not an object")

-- The loop over `packages`.
unfoldable pub parse_packages : Members → TextMap RazePackageInfo → Result (TextMap RazePackageInfo)
unfolding parse_package
parse_packages none_left packages = ok packages
parse_packages (member name entry rest) packages = elim (parse_package name entry) [
  | ok info ↦ parse_packages rest (assign info.name info packages)
  | err e ↦ err e
  | looping ↦ looping
  | threw what ↦ threw what
]

unfoldable pub finish_manifest :
    Text → Text → Text → Result (TextMap RazePackageInfo) → Result RazeVersionManifest
finish_manifest manifest_json version hash_algorithm (ok []) =
    fail invalid_manifest (codes "stage=raze.manifest.packages.empty; packages cannot be empty")
finish_manifest manifest_json version hash_algorithm (ok (info ∷ more)) = ok (record {
  version = version;
  hash_algorithm = hash_algorithm;
  packages = info ∷ more;
  raw_json = manifest_json;
})
finish_manifest manifest_json version hash_algorithm (err e) = err e
finish_manifest manifest_json version hash_algorithm looping = looping
finish_manifest manifest_json version hash_algorithm (threw what) = threw what

-- The three members that a manifest has, checked in this order.
unfoldable pub check_manifest :
    Text → Option Text → Option Text → Option Members → Result RazeVersionManifest
unfolding parse_packages finish_manifest to_lower_ascii
check_manifest manifest_json none _ _ =
    fail invalid_manifest (codes "stage=raze.manifest.version; version is missing")
check_manifest manifest_json (some version) none _ =
    fail invalid_manifest (codes "stage=raze.manifest.hash_algorithm; hashAlgorithm is missing")
check_manifest manifest_json (some version) (some hash_algorithm) none =
    fail invalid_manifest (codes "stage=raze.manifest.packages; packages is missing")
check_manifest manifest_json (some version) (some hash_algorithm) (some packages) =
    if text_eq (to_lower_ascii hash_algorithm) sha256_name
    then finish_manifest manifest_json version hash_algorithm (parse_packages packages [])
    else fail invalid_manifest
        (codes "stage=raze.manifest.hash_algorithm; only sha256 is supported")

unfoldable pub parse_raze_version_manifest : JsonLibrary → Text → Result RazeVersionManifest
unfolding check_manifest
parse_raze_version_manifest lib manifest_json = elim (lib.parse manifest_json) [
  | none ↦
      fail invalid_manifest
        (codes "stage=raze.manifest.parse; " ++ lib.what (parse_error manifest_json))
  | some j ↦
      if is_object j
      then check_manifest manifest_json (as_string (find (codes "version") j))
          (as_string (find (codes "hashAlgorithm") j)) (as_object (find (codes "packages") j))
      else fail invalid_manifest (codes "stage=raze.manifest.type; manifest is not an object")
]
