-- ===== src/Archive/Walks.antt =====
-- What the walk for an archive entry does to the disk, one directory at a time.
use mathlib.Core.List.{foldl-append}
use stmanager.Prelude.{
  ℕ, Text, Bool, true, false, none, List, [], ◌∷◌, ◌++◌, ◌≡◌, refl, sym, subst, ◌∙◌, append_assoc,
}
use stmanager.Status.{ok, ◌>>◌}
use stmanager.PathSafety.Disk.{directory, Probe, found, failed, Disk, IsPosix}
use stmanager.PathSafety.Paths.{split_path, join_path, validate_archive_relative_path}
use stmanager.PathSafety.Ensure.{ensure_component, entry_loop, ensure_archive_entry_directory_impl}
use stmanager.PathSafety.Location.{names}
use stmanager.PathSafety.Guarantees.{
  descend, Made, AllDirectories, ensure_component_failed, ensure_component_found,
  ensure_component-Made, ensure_component-directory, Made-found,
}
use stmanager.Server.Trust.{lift-keeps}
use stmanager.Files.Calls.{FileCalls}
use stmanager.Archive.Touches.{Touched, directory_made}

module _ (os : Disk) where
  -- What is found stays, so directories do.
  AllDirectories-Made :
      {allowed : Text → Type 0} {s t : os.State} (posix : IsPosix os) (current : Text)
      (parts : List Text)
      → Made os allowed s t
      → AllDirectories os s current parts
      → AllDirectories os t current parts
  AllDirectories-Made posix current [] m d = tt
  AllDirectories-Made posix current (name ∷ rest) m d = (
    Made-found os posix (join_path current name) directory d.0 m,
    AllDirectories-Made posix (join_path current name) rest m d.1,
  )

  AllDirectories-concat :
      (s : os.State) (current : Text) (taken : List Text) (name : Text)
      → AllDirectories os s current taken
      → os.lstat s (join_path (descend current taken) name) ≡ found directory
      → AllDirectories os s current (taken ++ name ∷ [])
  AllDirectories-concat s current [] name d e = (e, tt)
  AllDirectories-concat s current (first ∷ taken) name d e =
      (d.0, AllDirectories-concat s (join_path current first) taken name d.1 e)

module _ {os : Disk} (fs : FileCalls os) (root : Text) where
  module _ (posix : IsPosix os) (archive_path : Text)
      (valid : validate_archive_relative_path archive_path ≡ ok tt) (s : os.State) (mode : ℕ) where
    ensure_component-Touched :
        (taken rest : List Text) (name : Text) (u : os.State)
        → names (split_path archive_path) ≡ taken ++ name ∷ rest
        → AllDirectories os u root taken
        → Touched fs root s none u
        → Touched fs root s none
            (ensure_component os false (join_path (descend root taken) name) mode u).1
    ensure_component-Touched taken rest name u e d h =
        go (os.lstat u (join_path (descend root taken) name)) refl
      where
        go :
            (p : Probe)
            → os.lstat u (join_path (descend root taken) name) ≡ p
            → Touched fs root s none
                (ensure_component os false (join_path (descend root taken) name) mode u).1
        go (failed n) f =
            rw (ensure_component_failed os false (join_path (descend root taken) name) mode n u f)
              (directory_made archive_path name taken rest mode valid e d h)
        go (found t) f =
            rw (ensure_component_found os false (join_path (descend root taken) name) mode t u f) h

    -- One round of the loop, from what holds of the rounds after it.
    step-Touched :
        (leaf : Bool) (name : Text) (rest taken : List Text) (current : Text) (u : os.State)
        → names (split_path archive_path) ≡ taken ++ name ∷ names rest
        → current ≡ descend root taken
        → AllDirectories os u root taken
        → Touched fs root s none u
        → ((taken' : List Text) (next : Text) (v : os.State)
            → names (split_path archive_path) ≡ taken' ++ names rest
            → next ≡ descend root taken'
            → AllDirectories os v root taken'
            → Touched fs root s none v
            → Touched fs root s none (entry_loop os leaf mode next rest v).1)
        → Touched fs root s none
            ((ensure_component os false (join_path current name) mode
                >> entry_loop os leaf mode (join_path current name) rest)
              u).1
    step-Touched leaf name rest taken current u e c d h later =
        let path = join_path (descend root taken) name in
        let x = ensure_component os false path mode u in
        let after = ensure_component-Touched taken (names rest) name u e d h in
        subst
          (λ (p : Text).
            Touched fs root s none
              ((ensure_component os false (join_path p name) mode
                  >> entry_loop os leaf mode (join_path p name) rest)
                u).1)
          (sym c)
          (lift-keeps (Touched fs root s none) x.0 (λ _. entry_loop os leaf mode path rest) x.1
            after
            (λ a f.
              later (taken ++ name ∷ []) path x.1
                (e ∙ sym (append_assoc taken (name ∷ []) (names rest)))
                (sym (foldl-append join_path root taken (name ∷ [])))
                (AllDirectories-concat os x.1 root taken name
                  (AllDirectories-Made os {allowed = λ _. Unit {0}} posix root taken
                    (ensure_component-Made os (λ _. Unit {0}) false path mode u tt) d)
                  (ensure_component-directory os posix path mode u f))
                after))

    entry_loop-Touched :
        (leaf : Bool) (parts taken : List Text) (current : Text) (u : os.State)
        → names (split_path archive_path) ≡ taken ++ names parts
        → current ≡ descend root taken
        → AllDirectories os u root taken
        → Touched fs root s none u
        → Touched fs root s none (entry_loop os leaf mode current parts u).1
    unfolding entry_loop names
    entry_loop-Touched leaf [] taken current u e c d h = h
    entry_loop-Touched leaf ([] ∷ rest) taken current u e c d h =
        entry_loop-Touched leaf rest taken current u e c d h
    entry_loop-Touched false ((v ∷ vs) ∷ []) taken current u e c d h = h
    entry_loop-Touched true ((v ∷ vs) ∷ []) taken current u e c d h =
        step-Touched true (v ∷ vs) [] taken current u e c d h (entry_loop-Touched true [])
    entry_loop-Touched leaf ((v ∷ vs) ∷ y ∷ l) taken current u e c d h =
        step-Touched leaf (v ∷ vs) (y ∷ l) taken current u e c d h (entry_loop-Touched leaf (y ∷ l))

    pub ensure_archive_entry_directory_impl-Touched :
        (leaf : Bool) (u : os.State)
        → Touched fs root s none u
        → Touched fs root s none
            (ensure_archive_entry_directory_impl os root archive_path mode leaf u).1
    unfolding ensure_archive_entry_directory_impl
    ensure_archive_entry_directory_impl-Touched leaf u h =
        lift-keeps (Touched fs root s none) (validate_archive_relative_path archive_path)
          (λ _. entry_loop os leaf mode root (split_path archive_path)) u h
          (λ a e. entry_loop-Touched leaf (split_path archive_path) [] root u refl refl tt h)
