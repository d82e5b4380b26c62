-- ===== src/PathSafety/Location.antt =====
-- Where a path leads: `split_path` loses nothing, and a destination that passed the check of
-- src/path_safety.cpp lies under its root.
use mathlib.Core.List.{reverse, reverse-cons}
use stmanager.Prelude.{
  Text, true, codes, text_eq, is_empty, drop, last_elem?, List, [], ◌∷◌, ◌++◌, ◌||◌, if◌then◌else◌,
  ◌≡◌, ◌≢◌, refl, sym, ap, arith, Bool-cases, inl, inr, append_assoc, append-nil,
}
use stmanager.Status.{Result, ok, err, looping, threw}
use stmanager.PathSafety.Paths.{
  slash, split_from, split_path, join_path, ends_with_slash, is_forbidden, validate_parts,
  validate_archive_relative_path, join_destination_path,
}

-- The parts with a slash between any two.
pub join_parts : List Text → Text
join_parts [] = []
join_parts (part ∷ []) = part
join_parts (part ∷ more ∷ rest) = part ++ slash ++ join_parts (more ∷ rest)

split_from-ne-nil : (current path : Text) → split_from current path ≢ []
unfolding split_from
split_from-ne-nil current [] h = cc
split_from-ne-nil current (v ∷ rest) h = ground (arith, split_from-ne-nil (current ++ v ∷ []) rest)

join_parts-cons :
    (p : Text) (ps : List Text) → ps ≢ [] → join_parts (p ∷ ps) ≡ p ++ slash ++ join_parts ps
unfolding join_parts
join_parts-cons p [] h = absurd (h refl)
join_parts-cons p (q ∷ ps) h = refl

join_parts-split_from :
    (current path : Text) → join_parts (split_from current path) ≡ current ++ path
unfolding split_from join_parts
join_parts-split_from current [] = sym (append-nil current)
join_parts-split_from current (v ∷ rest) = ground (
  arith,
  join_parts-cons current (split_from [] rest) (split_from-ne-nil [] rest),
  join_parts-split_from [] rest,
  join_parts-split_from (current ++ v ∷ []) rest,
  append_assoc current (v ∷ []) rest,
)

-- Joining the parts of `split_path` by slashes gives the path back.
pub join_parts-split_path : (path : Text) → join_parts (split_path path) ≡ path
unfolding split_path
join_parts-split_path path = join_parts-split_from [] path

split_from-append :
    (current xs ys : Text)
    → split_from current (xs ++ slash ++ ys) ≡ split_from current xs ++ split_from [] ys
unfolding split_from
split_from-append current [] ys = refl
split_from-append current (v ∷ xs) ys =
    ground (arith, split_from-append [] xs ys, split_from-append (current ++ v ∷ []) xs ys)

-- The directories that a path leads through, the last one first, from the directory `stack`: an
-- empty part and `.` stay, `..` goes up.
enter : List Text → Text → List Text
enter stack part =
    if is_empty part || text_eq part (codes ".")
    then stack
    else if text_eq part (codes "..")
    then drop 1 stack
    else part ∷ stack

pub location_from : List Text → List Text → List Text
unfolding enter
location_from stack [] = stack
location_from stack (part ∷ parts) = location_from (enter stack part) parts

pub location : Text → List Text
location path = location_from [] (split_path path)

-- The parts of a path that are not empty.
unfoldable pub names : List Text → List Text
names [] = []
names (part ∷ parts) = if is_empty part then names parts else part ∷ names parts

location_from-append :
    (stack xs ys : List Text)
    → location_from stack (xs ++ ys) ≡ location_from (location_from stack xs) ys
unfolding location_from
location_from-append stack [] ys = refl
location_from-append stack (x ∷ xs) ys = location_from-append (enter stack x) xs ys

-- Parts that the check accepts go down only.
location_from-validate_parts :
    (stack parts : List Text)
    → validate_parts parts ≡ ok tt
    → location_from stack parts ≡ reverse (names parts) ++ stack
unfolding validate_parts location_from names is_forbidden
location_from-validate_parts stack [] h = refl
location_from-validate_parts stack ([] ∷ []) h = refl
location_from-validate_parts stack ([] ∷ part ∷ parts) h = cc
location_from-validate_parts stack ((v ∷ vs) ∷ parts) h = ground (
  arith,
  location_from-validate_parts ((v ∷ vs) ∷ stack) parts,
  reverse-cons (v ∷ vs) (names parts),
  append_assoc (reverse (names parts)) ((v ∷ vs) ∷ []) stack,
)

-- The accepted paths, by what they are: not empty, not absolute, and with parts that
-- `validate_parts` accepts.
validate_archive_relative_path-parts :
    (path : Text)
    → validate_archive_relative_path path ≡ ok tt
    → validate_parts (split_path path) ≡ ok tt
unfolding validate_archive_relative_path
validate_archive_relative_path-parts [] h = cc
validate_archive_relative_path-parts (v ∷ vs) h = ground arith

ends_with_slash-split :
    (root : Text)
    → ends_with_slash (last_elem? root) ≡ true
    → (init : Text) × (root ≡ init ++ slash)
unfolding ends_with_slash
ends_with_slash-split [] h = cc
ends_with_slash-split (v ∷ []) h = ([], ground arith)
ends_with_slash-split (v ∷ w ∷ rest) h =
    let (init, e) = ends_with_slash-split (w ∷ rest) h in (v ∷ init, ap (λ l. v ∷ l) e)

location-append :
    (init path : Text)
    → location (init ++ slash ++ path) ≡ location_from (location init) (split_path path)
unfolding location split_path
location-append init path =
    rw split_from-append (location_from-append [] (split_from [] init) (split_from [] path))

location-slash : (init : Text) → location (init ++ slash) ≡ location init
unfolding location_from split_path split_from
location-slash init = rw append-nil at (location-append init [])

-- The case that the root ends with a slash, which is not doubled.
location-append_slash :
    (init root path : Text)
    → root ≡ init ++ slash
    → location (root ++ path) ≡ location_from (location root) (split_path path)
location-append_slash init root path e = rw (e, location-slash init) (location-append init path)

location-join_path :
    (root path : Text)
    → location (join_path root path) ≡ location_from (location root) (split_path path)
unfolding join_path
location-join_path [] path = unfold location location_from split_path split_from in refl
location-join_path (v ∷ vs) path = elim (Bool-cases (ends_with_slash (last_elem? (v ∷ vs)))) [
  | inl e ↦
      let (init, at_end) = ends_with_slash-split (v ∷ vs) e in
      rw e (location-append_slash init (v ∷ vs) path at_end)
  | inr e ↦ rw e (location-append (v ∷ vs) path)
]

join_destination_path-ok :
    (root path dest : Text)
    → join_destination_path root path ≡ ok dest
    → (validate_archive_relative_path path ≡ ok tt) × (dest ≡ join_path root path)
unfolding join_destination_path
join_destination_path-ok root path dest h = go (validate_archive_relative_path path) refl
  where
    go :
        (r : Result (Unit {0}))
        → validate_archive_relative_path path ≡ r
        → (validate_archive_relative_path path ≡ ok tt) × (dest ≡ join_path root path)
    go (ok tt) e = (e, ground (arith, e, h))
    go (err _) e = ground (arith, e, h)
    go looping e = ground (arith, e, h)
    go (threw _) e = ground (arith, e, h)

-- A destination that `join_destination_path` hands out is the root with the names of the archive
-- path below it: it never leaves the root.
pub join_destination_path-location :
    (destination_root archive_path destination_path : Text)
    → join_destination_path destination_root archive_path ≡ ok destination_path
    → location destination_path
      ≡ reverse (names (split_path archive_path)) ++ location destination_root
join_destination_path-location root path dest h =
    let (valid, e) = join_destination_path-ok root path dest h in
    rw (e, location-join_path root path)
      (location_from-validate_parts (location root) (split_path path)
        (validate_archive_relative_path-parts path valid))
