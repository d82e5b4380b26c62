-- ===== src/Tests/Updates.antt =====
-- The theorems of an update at a concrete release, manifest and file.
use stmanager.Prelude.{Text, codes, text_eq, true, some, [], ◌∷◌, ◌≡◌, ◌↔◌, refl}
use stmanager.Status.{ok}
use stmanager.Json.{Json, object, member, none_left, string, JsonLibrary, find, find_member}
use stmanager.Sha256.Padding.{digest}
use stmanager.Raze.Types.{
  RazeReleaseInfo, RazePackageInfo, RazeVersionManifest, lookup, assign, to_lower_ascii,
}
use stmanager.Raze.Manifests.{
  sha256_name, parse_raze_version_manifest, check_manifest, parse_packages, parse_package,
  finish_manifest,
}
use stmanager.Raze.Plan.{
  plan_raze_package_updates, plan_loop, plan_package, compare_package, set_url,
}
use stmanager.Raze.Verify.{FileRead, whole, hex, verify_raze_package_file}
use stmanager.Raze.Checks.{verify_raze_package_file-accepts}
use stmanager.Raze.PlanLaws.{EachPlanned, EachCovered}
use stmanager.Raze.Planning.{
  plan_raze_package_updates-EachPlanned, plan_raze_package_updates-covered,
  plan_raze_package_updates-idempotent, NothingToDo,
}
use stmanager.Raze.ManifestLaws.{IsValid, parse_raze_version_manifest-IsValid}
use stmanager.Tests.Memory.{memory_json}

abbrev package_a : RazePackageInfo
package_a = record { name = b'a' ∷ []; file = b'f' ∷ []; hash = b'1' ∷ [] }

abbrev remote : RazeVersionManifest
remote = record {
  version = b'2' ∷ [];
  hash_algorithm = sha256_name;
  packages = (b'a' ∷ [], package_a) ∷ [];
  raw_json = [];
}

abbrev old_manifest : RazeVersionManifest
old_manifest = record remote { packages = [] }

abbrev release : RazeReleaseInfo
release = record {
  tag_name = b'2' ∷ [];
  version_json_url = b'v' ∷ [];
  asset_download_urls = (b'f' ∷ [], b'u' ∷ []) ∷ [];
}

plan_succeeds : (plan_raze_package_updates remote true old_manifest release []).0 ≡ ok tt
unfolding plan_raze_package_updates plan_loop plan_package compare_package set_url lookup text_eq
plan_succeeds = refl

plan_raze_package_updates-EachPlanned_example :
    EachPlanned true old_manifest release remote.packages
      (plan_raze_package_updates remote true old_manifest release []).1
plan_raze_package_updates-EachPlanned_example =
    plan_raze_package_updates-EachPlanned remote true old_manifest release [] plan_succeeds

plan_raze_package_updates-covered_example :
    ((plan_raze_package_updates remote true old_manifest release []).0 ≡ ok tt)
    ↔ EachCovered true old_manifest release remote.packages
plan_raze_package_updates-covered_example =
    plan_raze_package_updates-covered remote true old_manifest release []

remote-keyed : lookup package_a.name remote.packages ≡ some package_a
unfolding lookup text_eq
remote-keyed = refl

plan_raze_package_updates-idempotent_example :
    ((plan_raze_package_updates remote true remote release []).0 ≡ ok tt)
    × NothingToDo (plan_raze_package_updates remote true remote release []).1
plan_raze_package_updates-idempotent_example =
    plan_raze_package_updates-idempotent remote release [] (remote-keyed, tt)

abbrev read_abc : Text → FileRead
read_abc path = whole (b'a' ∷ b'b' ∷ b'c' ∷ [])

verify_raze_package_file-accepts_example :
    (verify_raze_package_file read_abc (b'f' ∷ []) (codes "SHA256") (b'0' ∷ []) ≡ ok tt) ↔ (
      (to_lower_ascii (codes "SHA256") ≡ sha256_name)
      × ((bytes : Text) × (read_abc (b'f' ∷ []) ≡ whole bytes)
          × (hex (digest bytes) ≡ to_lower_ascii (b'0' ∷ []))))
verify_raze_package_file-accepts_example =
    verify_raze_package_file-accepts read_abc (b'f' ∷ []) (codes "SHA256") (b'0' ∷ [])

abbrev manifest_value : Json
manifest_value = object (
    member (codes "hashAlgorithm") (string (codes "SHA256")) (
      member (codes "packages")
        (object (
          member (b'a' ∷ [])
            (object (
              member (codes "file") (string (b'f' ∷ []))
                (member (codes "hash") (string (b'A' ∷ [])) none_left)))
            none_left))
        (member (codes "version") (string (b'2' ∷ [])) none_left)))

abbrev manifest_json : JsonLibrary
manifest_json = record memory_json { parse = λ t. some manifest_value }

abbrev parsed_manifest : RazeVersionManifest
parsed_manifest = record {
  version = b'2' ∷ [];
  hash_algorithm = codes "SHA256";
  packages = (b'a' ∷ [], record { name = b'a' ∷ []; file = b'f' ∷ []; hash = b'a' ∷ [] }) ∷ [];
  raw_json = [];
}

manifest_parsed : parse_raze_version_manifest manifest_json [] ≡ ok parsed_manifest
unfolding parse_raze_version_manifest check_manifest parse_packages parse_package finish_manifest
    find find_member text_eq codes to_lower_ascii assign
manifest_parsed = refl

parse_raze_version_manifest-IsValid_example : IsValid [] parsed_manifest
parse_raze_version_manifest-IsValid_example =
    parse_raze_version_manifest-IsValid manifest_json [] parsed_manifest manifest_parsed
