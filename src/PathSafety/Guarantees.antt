-- ===== src/PathSafety/Guarantees.antt =====
-- What the walks of src/path_safety.cpp leave on the disk.
use mathlib.Core.List.{foldl, foldl-append}
use stmanager.Prelude.{
  ℕ, Text, Bool, true, false, List, [], ◌∷◌, ◌++◌, ◌≡◌, refl, ◌∙◌, sym, arith, append_assoc, subst,
}
use stmanager.Status.{Result, ok, err, looping, threw, Exec, ◌>>◌, bind-eq-ok}
use stmanager.PathSafety.Paths.{split_path, join_path, validate_archive_relative_path}
use stmanager.PathSafety.Disk.{FileType, directory, Probe, found, failed, Disk, IsPosix}
use stmanager.PathSafety.Ensure.{ensure_component, entry_loop, ensure_archive_entry_directory_impl}
use stmanager.PathSafety.Location.{names}

-- The path that is reached from `root` through some names.
abbrev pub descend : Text → List Text → Text
descend = foldl join_path

-- A proper or improper initial part of the walk from `root` through the names of `parts`.
pub record IsComponent (root : Text) (parts : List Text) (path : Text) : Type 0 where
  pub taken : List Text
  pub rest : List Text
  pub split : names parts ≡ taken ++ rest
  pub reached : path ≡ descend root taken

module _ (os : Disk) where
  -- The second state comes from the first by calls of `mkdir` on allowed paths, and nothing else.
  pub data Made (allowed : Text → Type 0) (s : os.State) : os.State → Type 0 where
    same : Made allowed s s
    make :
        {t : os.State} (path : Text) (mode : ℕ)
        → allowed path
        → Made allowed s t
        → Made allowed s (os.mkdir t path mode).1

  Made-trans :
      {allowed : Text → Type 0} {s t u : os.State}
      → Made allowed s t
      → Made allowed t u
      → Made allowed s u
  Made-trans m same = m
  Made-trans m (make p mode h n) = make p mode h (Made-trans m n)

  pub ensure_component_failed :
      (follow : Bool) (path : Text) (mode errno : ℕ) (s : os.State)
      → os.lstat s path ≡ failed errno
      → (ensure_component os follow path mode s).1 ≡ (os.mkdir s path mode).1
  unfolding ensure_component
  ensure_component_failed follow path mode errno s e = ground arith

  pub ensure_component_found :
      (follow : Bool) (path : Text) (mode : ℕ) (t : FileType) (s : os.State)
      → os.lstat s path ≡ found t
      → (ensure_component os follow path mode s).1 ≡ s
  unfolding ensure_component
  ensure_component_found follow path mode t s e = ground arith

  pub ensure_component-Made :
      (allowed : Text → Type 0) (follow : Bool) (path : Text) (mode : ℕ) (s : os.State)
      → allowed path
      → Made allowed s (ensure_component os follow path mode s).1
  ensure_component-Made allowed follow path mode s h = go (os.lstat s path) refl
    where
      go :
          (p : Probe)
          → os.lstat s path ≡ p
          → Made allowed s (ensure_component os follow path mode s).1
      go (failed n) e = rw (ensure_component_failed follow path mode n s e) (make path mode h same)
      go (found t) e = rw (ensure_component_found follow path mode t s e) same

  module _ (posix : IsPosix os) where
    pub Made-found :
        {allowed : Text → Type 0} {s t : os.State} (q : Text) (ty : FileType)
        → os.lstat s q ≡ found ty
        → Made allowed s t
        → os.lstat t q ≡ found ty
    Made-found q ty h same = h
    Made-found q ty h (make p mode a m) =
        posix.lstat-mkdir_found _ p q mode ty (Made-found q ty h m)

    pub ensure_component-directory :
        (path : Text) (mode : ℕ) (s : os.State)
        → (ensure_component os false path mode s).0 ≡ ok tt
        → os.lstat (ensure_component os false path mode s).1 path ≡ found directory
    unfolding ensure_component
    ensure_component-directory path mode s h = ground (arith, posix.lstat-mkdir_self s path mode)

  Made-then :
      {allowed : Text → Type 0} (m n : Exec os.State (Unit {0})) (s : os.State)
      → Made allowed s (m s).1
      → Made allowed (m s).1 (n (m s).1).1
      → Made allowed s ((m >> n) s).1
  Made-then {allowed} m n s first second = go (m s).0 refl
    where
      go : (r : Result (Unit {0})) → (m s).0 ≡ r → Made allowed s ((m >> n) s).1
      go (ok a) e = rw e (Made-trans first second)
      go (err x) e = rw e first
      go looping e = rw e first
      go (threw _) e = rw e first

  -- `passed` are the names that the walk has made its way through before it comes to `parts`.
  module _ (root : Text) (all : List Text) (mode : ℕ) where
    here-IsComponent :
        (passed rest : List Text) (part : Text)
        → names all ≡ passed ++ part ∷ rest
        → IsComponent root all (join_path (descend root passed) part)
    here-IsComponent passed rest part e = record {
      taken = passed ++ part ∷ [];
      rest = rest;
      split = e ∙ sym (append_assoc passed (part ∷ []) rest);
      reached = sym (foldl-append join_path root passed (part ∷ []));
    }

    -- One round of the loop, from what holds of the rounds after it.
    step-Made :
        (leaf : Bool) (part : Text) (rest passed : List Text) (current : Text) (s : os.State)
        → names all ≡ passed ++ part ∷ names rest
        → current ≡ descend root passed
        → ((passed' : List Text) (next : Text) (t : os.State)
            → names all ≡ passed' ++ names rest
            → next ≡ descend root passed'
            → Made (IsComponent root all) t (entry_loop os leaf mode next rest t).1)
        → Made
            (IsComponent root all)
            s
            ((ensure_component os false (join_path current part) mode
                >> entry_loop os leaf mode (join_path current part) rest)
              s).1
    unfolding here-IsComponent
    step-Made leaf part rest passed current s e c later =
        let here = here-IsComponent passed (names rest) part e in
        Made-then (ensure_component os false (join_path current part) mode)
          (entry_loop os leaf mode (join_path current part) rest) s
          (ensure_component-Made (IsComponent root all) false (join_path current part) mode s
            (rw c here))
          (later (passed ++ part ∷ []) (join_path current part) _ here.split
            (rw c (sym (foldl-append join_path root passed (part ∷ [])))))

    entry_loop-Made :
        (leaf : Bool) (parts passed : List Text) (current : Text) (s : os.State)
        → names all ≡ passed ++ names parts
        → current ≡ descend root passed
        → Made (IsComponent root all) s (entry_loop os leaf mode current parts s).1
    unfolding entry_loop names
    entry_loop-Made leaf [] passed current s e c = same
    entry_loop-Made leaf ([] ∷ rest) passed current s e c =
        entry_loop-Made leaf rest passed current s e c
    entry_loop-Made false ((v ∷ vs) ∷ []) passed current s e c = same
    entry_loop-Made true ((v ∷ vs) ∷ []) passed current s e c =
        step-Made true (v ∷ vs) [] passed current s e c (entry_loop-Made true [])
    entry_loop-Made leaf ((v ∷ vs) ∷ y ∷ l) passed current s e c =
        step-Made leaf (v ∷ vs) (y ∷ l) passed current s e c (entry_loop-Made leaf (y ∷ l))

  -- A walk for an archive entry, whether it succeeds or not, changes the disk by `mkdir` alone, and
  -- only at the root joined with some of the entry's leading names.
  pub ensure_archive_entry_directory_impl-Made :
      (destination_root archive_path : Text) (mode : ℕ) (include_leaf : Bool) (s : os.State)
      → Made
          (IsComponent destination_root (split_path archive_path))
          s
          (ensure_archive_entry_directory_impl os destination_root archive_path mode include_leaf
            s).1
  unfolding ensure_archive_entry_directory_impl
  ensure_archive_entry_directory_impl-Made root path mode leaf s =
      Made-then (λ t. (validate_archive_relative_path path, t))
        (entry_loop os leaf mode root (split_path path)) s same
        (entry_loop-Made root (split_path path) mode leaf (split_path path) [] root s refl refl)

  -- Every path on the way from `current` through the names is a directory, and no symbolic link.
  abbrev pub AllDirectories : os.State → Text → List Text → Type 0
  AllDirectories s current [] = Unit
  AllDirectories s current (name ∷ rest) =
      (os.lstat s (join_path current name) ≡ found directory)
      × AllDirectories s (join_path current name) rest

  -- The parts that are walked: without the leaf, the last part is left out.
  abbrev pub walked : Bool → List Text → List Text
  walked true parts = parts
  walked false [] = []
  walked false (part ∷ []) = []
  walked false (part ∷ more ∷ rest) = part ∷ walked false (more ∷ rest)

  module _ (posix : IsPosix os) (mode : ℕ) where
    step-AllDirectories :
        (leaf : Bool) (part : Text) (rest : List Text) (later : List Text) (current : Text)
        (s : os.State)
        → ((ensure_component os false (join_path current part) mode
              >> entry_loop os leaf mode (join_path current part) rest)
            s).0
          ≡ ok tt
        → ((t : os.State)
            → (entry_loop os leaf mode (join_path current part) rest t).0 ≡ ok tt
            → AllDirectories
                (entry_loop os leaf mode (join_path current part) rest t).1
                (join_path current part)
                later)
        → AllDirectories
            ((ensure_component os false (join_path current part) mode
                >> entry_loop os leaf mode (join_path current part) rest)
              s).1
            current
            (part ∷ later)
    step-AllDirectories leaf part rest later current s h more =
        let next = join_path current part in
        let (_, first, second, e) =
          bind-eq-ok (ensure_component os false next mode) (λ _. entry_loop os leaf mode next rest)
            s h in
        subst (λ (r : Result (Unit {0}) × os.State). AllDirectories r.1 current (part ∷ later))
          (sym e)
          (
            Made-found posix next directory (ensure_component-directory posix next mode s first)
                (entry_loop-Made next rest mode leaf rest [] next _ refl refl),
            more _ second,
          )

    entry_loop-AllDirectories :
        (leaf : Bool) (parts : List Text) (current : Text) (s : os.State)
        → (entry_loop os leaf mode current parts s).0 ≡ ok tt
        → AllDirectories
            (entry_loop os leaf mode current parts s).1
            current
            (names (walked leaf parts))
    unfolding entry_loop names
    entry_loop-AllDirectories true [] current s h = tt
    entry_loop-AllDirectories false [] current s h = tt
    entry_loop-AllDirectories true ([] ∷ rest) current s h =
        entry_loop-AllDirectories true rest current s h
    entry_loop-AllDirectories false ([] ∷ []) current s h = tt
    entry_loop-AllDirectories false ([] ∷ y ∷ l) current s h =
        entry_loop-AllDirectories false (y ∷ l) current s h
    entry_loop-AllDirectories true ((v ∷ vs) ∷ []) current s h =
        step-AllDirectories true (v ∷ vs) [] [] current s h
          (entry_loop-AllDirectories true [] (join_path current (v ∷ vs)))
    entry_loop-AllDirectories true ((v ∷ vs) ∷ y ∷ l) current s h =
        step-AllDirectories true (v ∷ vs) (y ∷ l) (names (y ∷ l)) current s h
          (entry_loop-AllDirectories true (y ∷ l) (join_path current (v ∷ vs)))
    entry_loop-AllDirectories false ((v ∷ vs) ∷ []) current s h = tt
    entry_loop-AllDirectories false ((v ∷ vs) ∷ y ∷ l) current s h =
        step-AllDirectories false (v ∷ vs) (y ∷ l) (names (walked false (y ∷ l))) current s h
          (entry_loop-AllDirectories false (y ∷ l) (join_path current (v ∷ vs)))

    -- If the walk for an archive entry succeeds, then each directory that it was to pass, the
    -- entry itself included if the leaf is, is there as a directory, and none is a symbolic link.
    pub ensure_archive_entry_directory_impl-AllDirectories :
        (destination_root archive_path : Text) (include_leaf : Bool) (s : os.State)
        → (ensure_archive_entry_directory_impl os destination_root archive_path mode include_leaf
            s).0
          ≡ ok tt
        → AllDirectories
            (ensure_archive_entry_directory_impl os destination_root archive_path mode include_leaf
              s).1
            destination_root
            (names (walked include_leaf (split_path archive_path)))
    unfolding ensure_archive_entry_directory_impl
    ensure_archive_entry_directory_impl-AllDirectories root path leaf s h =
        let walk = entry_loop os leaf mode root (split_path path) in
        let (_, _, second, e) =
          bind-eq-ok (λ t. (validate_archive_relative_path path, t)) (λ _. walk) s h in
        subst
          (λ (r : Result (Unit {0}) × os.State).
            AllDirectories r.1 root (names (walked leaf (split_path path))))
          (sym e) (entry_loop-AllDirectories leaf (split_path path) root s second)
