-- ===== src/Raze/ManifestLaws.antt =====
-- What `parse_raze_version_manifest` of src/raze_update.cpp lets through.
use stmanager.Prelude.{
  ℕ, Text, text_eq, text_eq_sound, Option, none, some, [], ◌∷◌, ◌≡◌, ◌≢◌, refl, arith, Bool-cases,
  inl, inr, subst, codes,
}
use stmanager.Status.{Result, ok, err, looping, threw}
use stmanager.Json.{
  Json, Members, none_left, member, JsonLibrary, find, as_string, as_object, is_object, text_lt,
}
use stmanager.Raze.Types.{
  TextMap, assign, lower_char, to_lower_ascii, RazePackageInfo, RazeVersionManifest,
}
use stmanager.Raze.Manifests.{
  sha256_name, check_package, parse_package, parse_packages, finish_manifest, check_manifest,
  parse_raze_version_manifest,
}

lower_char-lower_char : (c : ℕ) → lower_char (lower_char c) ≡ lower_char c
lower_char-lower_char c = ground arith

to_lower_ascii-to_lower_ascii : (t : Text) → to_lower_ascii (to_lower_ascii t) ≡ to_lower_ascii t
unfolding to_lower_ascii
to_lower_ascii-to_lower_ascii [] = refl
to_lower_ascii-to_lower_ascii (c ∷ t) =
    rw (lower_char-lower_char c, to_lower_ascii-to_lower_ascii t) refl

-- Every hash is in lower case.
abbrev pub AllLower : TextMap RazePackageInfo → Type 0
AllLower [] = Unit
AllLower ((name, info) ∷ rest) = (to_lower_ascii info.hash ≡ info.hash) × AllLower rest

assign-AllLower :
    (key : Text) (info : RazePackageInfo) (packages : TextMap RazePackageInfo)
    → to_lower_ascii info.hash ≡ info.hash
    → AllLower packages
    → AllLower (assign key info packages)
unfolding assign
assign-AllLower key info [] h a = (h, tt)
assign-AllLower key info ((name, old) ∷ rest) h (b, bs) = elim (Bool-cases (text_eq name key)) [
  | inl e ↦ rw e (h, bs)
  | inr e ↦ rw e (elim (Bool-cases (text_lt key name)) [
    | inl f ↦ rw f (h, (b, bs))
    | inr f ↦ rw f (b, assign-AllLower key info rest h bs)
  ])
]

check_package-lower :
    (name : Text) (file hash : Option Text) (info : RazePackageInfo)
    → check_package name file hash ≡ ok info
    → to_lower_ascii info.hash ≡ info.hash
check_package-lower name none hash info h = cc
check_package-lower name (some file) none info h = cc
check_package-lower name (some file) (some hash) info h =
    subst (λ (t : Text). to_lower_ascii t ≡ t) (same h) (to_lower_ascii-to_lower_ascii hash)
  where
    same : {i : RazePackageInfo} → Result.ok i ≡ Result.ok info → i.hash ≡ info.hash
    same e = cc

parse_package-lower :
    (name : Text) (entry : Json) (info : RazePackageInfo)
    → parse_package name entry ≡ ok info
    → to_lower_ascii info.hash ≡ info.hash
unfolding parse_package
parse_package-lower name entry info h = elim (Bool-cases (is_object entry)) [
  | inl e ↦
      check_package-lower name (as_string (find (codes "file") entry))
        (as_string (find (codes "hash") entry)) info (rw (e, parse_package) at h)
  | inr e ↦ absurd (ground arith)
]

parse_packages-AllLower :
    (members : Members) (packages result : TextMap RazePackageInfo)
    → AllLower packages
    → parse_packages members packages ≡ ok result
    → AllLower result
unfolding parse_packages
parse_packages-AllLower none_left packages result a h = subst AllLower (same h) a
  where
    same : {m : TextMap RazePackageInfo} → Result.ok m ≡ Result.ok result → m ≡ result
    same e = cc
parse_packages-AllLower (member name entry rest) packages result a h =
    go (λ m. parse_packages-AllLower rest m result) (parse_package name entry) refl
  where
    go :
        ((m : TextMap RazePackageInfo)
          → AllLower m
          → parse_packages rest m ≡ ok result
          → AllLower result)
        → (r : Result RazePackageInfo) → parse_package name entry ≡ r
        → AllLower result
    go again (ok info) e =
        again (assign info.name info packages)
          (assign-AllLower info.name info packages (parse_package-lower name entry info e) a)
          (rw (e, parse_packages) at h)
    go again (err e') e = absurd (ground arith)
    go again looping e = absurd (ground arith)
    go again (threw what) e = absurd (ground arith)

-- A manifest that may be used.
pub record IsValid (manifest_json : Text) (m : RazeVersionManifest) : Type 0 where
  pub algorithm : to_lower_ascii m.hash_algorithm ≡ sha256_name
  pub some_package : m.packages ≢ []
  pub lower : AllLower m.packages
  pub text_kept : m.raw_json ≡ manifest_json

finish_manifest-IsValid :
    (manifest_json version algorithm : Text) (packages : Members) (m : RazeVersionManifest)
    (r : Result (TextMap RazePackageInfo))
    → parse_packages packages [] ≡ r
    → to_lower_ascii algorithm ≡ sha256_name
    → finish_manifest manifest_json version algorithm r ≡ ok m
    → IsValid manifest_json m
unfolding finish_manifest
finish_manifest-IsValid json version algorithm packages m (ok []) p a h = absurd (ground arith)
finish_manifest-IsValid json version algorithm packages m (ok (i ∷ is)) p a h =
    subst (IsValid json) (same h) (record {
      algorithm = a;
      some_package = λ e. cc;
      lower = parse_packages-AllLower packages [] (i ∷ is) tt p;
      text_kept = refl;
    })
  where
    same : {n : RazeVersionManifest} → Result.ok n ≡ Result.ok m → n ≡ m
    same e = cc
finish_manifest-IsValid json version algorithm packages m (err e) p a h = absurd (ground arith)
finish_manifest-IsValid json version algorithm packages m looping p a h = absurd (ground arith)
finish_manifest-IsValid json version algorithm packages m (threw w) p a h = absurd (ground arith)

check_manifest-IsValid :
    (manifest_json : Text) (version algorithm : Option Text) (packages : Option Members)
    (m : RazeVersionManifest)
    → check_manifest manifest_json version algorithm packages ≡ ok m
    → IsValid manifest_json m
unfolding check_manifest
check_manifest-IsValid json none algorithm packages m h = cc
check_manifest-IsValid json (some version) none packages m h = cc
check_manifest-IsValid json (some version) (some algorithm) none m h = cc
check_manifest-IsValid json (some version) (some algorithm) (some packages) m h =
    elim (Bool-cases (text_eq (to_lower_ascii algorithm) sha256_name)) [
      | inl e ↦
          finish_manifest-IsValid json version algorithm packages m (parse_packages packages [])
            refl (text_eq_sound _ _ e) (rw (e, check_manifest) at h)
      | inr e ↦ absurd (ground arith)
    ]

-- A manifest that `parse_raze_version_manifest` returns names SHA-256 as its algorithm, in letters
-- of either case, has a package, has every hash in lower case, and keeps the text it came from.
pub parse_raze_version_manifest-IsValid :
    (lib : JsonLibrary) (manifest_json : Text) (m : RazeVersionManifest)
    → parse_raze_version_manifest lib manifest_json ≡ ok m
    → IsValid manifest_json m
unfolding parse_raze_version_manifest
parse_raze_version_manifest-IsValid lib json m h = go (lib.parse json) refl
  where
    go : (o : Option Json) → lib.parse json ≡ o → IsValid json m
    go none e = absurd (ground arith)
    go (some j) e = elim (Bool-cases (is_object j)) [
      | inl f ↦
          check_manifest-IsValid json (as_string (find (codes "version") j))
            (as_string (find (codes "hashAlgorithm") j)) (as_object (find (codes "packages") j)) m
            (rw (e, f, parse_raze_version_manifest) at h)
      | inr f ↦ absurd (ground arith)
    ]
