-- ===== src/Archive/Slots.antt =====
-- What the calls of the operating system do at the paths of a restoration, and that the removals and
-- the making of directories of src/fs_ops.cpp and src/path_safety.cpp keep the other places.
use stmanager.Prelude.{
  ℕ, zero, suc, Text, Bool, true, false, codes, not, Option, none, some, List, [], ◌∷◌, ◌==◌, ◌≡◌,
  ◌⊎◌, inl, inr, refl, if◌then◌else◌,
}
use stmanager.Status.{Result, ok, Exec, ◌>>◌}
use stmanager.PathSafety.Disk.{Probe, found, failed, Disk, enoent}
use stmanager.PathSafety.Paths.{slash, split_path, join_path, parent_directory}
use stmanager.PathSafety.Ensure.{
  is_directory_type, ensure_component, tree_loop, ensure_directory_tree_impl, ensure_directory_tree,
  ensure_parent_directories, with_parent,
}
use stmanager.PathSafety.Guarantees.{Made, same, make, ensure_component-Made}
use stmanager.Server.Trust.{lift-keeps, if_done-keeps}
use stmanager.Files.Calls.{Listing, listed, not_listed, FileCalls, make_io_error, is_dot_name}
use stmanager.Files.Copy.{each_child, with_children}
use stmanager.Files.Remove.{reported, remove_path_recursive}

-- The paths that are reached from `current` through some of the parts.
abbrev pub OnWay : Text → List Text → Text → Type 0
OnWay current [] q = ⊥
OnWay current ([] ∷ rest) q = OnWay current rest q
OnWay current ((v ∷ vs) ∷ rest) q =
    (q ≡ join_path current (v ∷ vs)) ⊎ OnWay (join_path current (v ∷ vs)) rest q

-- The directories on the way to a path.
abbrev pub AncestorOf : Option Text → Text → Type 0
AncestorOf none q = ⊥
AncestorOf (some []) q = ⊥
AncestorOf (some (c ∷ rest)) q = OnWay (if c == b'/' then slash else []) (split_path (c ∷ rest)) q

abbrev pub Among : Text → List Text → Type 0
Among name [] = ⊥
Among name (first ∷ rest) = (name ≡ first) ⊎ Among name rest

-- A path, and what is below it by the names that its directories list.
pub data Below {os : Disk} (fs : FileCalls os) (path : Text) : Text → Type 0 where
  itself : Below fs path path
  child :
      {q : Text} (name : Text) (names : List Text) (u : os.State)
      → fs.list_directory u q ≡ listed names
      → Among name names
      → Below fs path q
      → Below fs path (join_path q name)

module _ (os : Disk) where
  Made-holds :
      (P : os.State → Type 0) {allowed : Text → Type 0} {s t : os.State}
      → ((q : Text) (mode : ℕ) (u : os.State) → allowed q → P u → P (os.mkdir u q mode).1)
      → Made os allowed s t
      → P s
      → P t
  Made-holds P step same p = p
  Made-holds P step (make q mode a m) p = step q mode _ a (Made-holds P step m p)

  tree_loop-holds :
      (P : os.State → Type 0) (mode : ℕ) (current : Text) (parts : List Text) (s : os.State)
      → ((q : Text) (mode : ℕ) (u : os.State)
          → OnWay current parts q
          → P u
          → P (os.mkdir u q mode).1)
      → P s
      → P (tree_loop os false mode current parts s).1
  unfolding tree_loop
  tree_loop-holds P mode current [] s step p = p
  tree_loop-holds P mode current ([] ∷ rest) s step p = tree_loop-holds P mode current rest s step p
  tree_loop-holds P mode current ((v ∷ vs) ∷ rest) s step p =
      let path = join_path current (v ∷ vs) in
      let x = ensure_component os false path mode s in
      let after =
        Made-holds P {allowed = λ q. q ≡ path} (λ q m u e r. step q m u (inl e) r)
          (ensure_component-Made os (λ q. q ≡ path) false path mode s refl) p in
      lift-keeps P x.0 (λ _. tree_loop os false mode path rest) x.1 after
        (λ a e. tree_loop-holds P mode path rest x.1 (λ q m u w r. step q m u (inr w) r) after)

  pub ensure_parent_directories-holds :
      (P : os.State → Type 0) (path : Text) (mode : ℕ) (s : os.State)
      → ((q : Text) (mode : ℕ) (u : os.State)
          → AncestorOf (parent_directory path) q
          → P u
          → P (os.mkdir u q mode).1)
      → P s
      → P (ensure_parent_directories os path mode s).1
  unfolding ensure_parent_directories ensure_directory_tree ensure_directory_tree_impl
  ensure_parent_directories-holds P path mode s step p = by_parent (parent_directory path) step
    where
      by_parent :
          (o : Option Text)
          → ((q : Text) (mode : ℕ) (u : os.State) → AncestorOf o q → P u → P (os.mkdir u q mode).1)
          → P (with_parent os o (λ parent. ensure_directory_tree os parent mode) s).1
      by_parent none step = p
      by_parent (some []) step = p
      by_parent (some (c ∷ rest)) step =
          tree_loop-holds P mode (if c == b'/' then slash else []) (split_path (c ∷ rest)) s step p

module _ {os : Disk} (fs : FileCalls os) (P : os.State → Type 0) where
  each_child-holds :
      (call : Text → Exec os.State (Unit {0})) (names : List Text) (s : os.State)
      → ((name : Text) (u : os.State) → Among name names → P u → P (call name u).1)
      → P s
      → P (each_child fs call names s).1
  unfolding each_child
  each_child-holds call [] s step p = p
  each_child-holds call (name ∷ rest) s step p =
      by_dot (λ u q. each_child-holds call rest u (λ m v w r. step m v (inr w) r) q)
        (is_dot_name name)
    where
      by_dot :
          ((u : os.State) → P u → P (each_child fs call rest u).1)
          → (b : Bool)
          → P
              ((elim b as (λ _. Exec os.State (Unit {0})) [
                | true ↦ each_child fs call rest
                | false ↦ call name >> each_child fs call rest
              ])
                s).1
      by_dot again true = again s p
      by_dot again false =
          lift-keeps P (call name s).0 (λ _. each_child fs call rest) (call name s).1
            (step name s (inl refl) p) (λ a e. again (call name s).1 (step name s (inl refl) p))

  reported-holds :
      (action path : Text) (o : Option ℕ) (s : os.State)
      → P s
      → P (reported fs action path (o, s)).1
  reported-holds action path none s p = p
  reported-holds action path (some n) s p = p

  listed-holds :
      (path : Text) (call : List Text → Exec os.State (Unit {0})) (l : Listing) (s : os.State)
      → P s
      → ((names : List Text) → l ≡ listed names → P (call names s).1)
      → P
          (elim l as (λ _. Result (Unit {0}) × os.State) [
            | not_listed errno ↦ (make_io_error os (codes "opendir") path errno, s)
            | listed names ↦ call names s
          ]).1
  listed-holds path call (not_listed n) s p h = p
  listed-holds path call (listed names) s p h = h names refl

  module _ (path : Text)
      (unlinks : (q : Text) (u : os.State) → Below fs path q → P u → P (fs.unlink q u).1)
      (removes : (q : Text) (u : os.State) → Below fs path q → P u → P (fs.rmdir q u).1) where
    pub remove_path_recursive-holds :
        (depth : ℕ) (q : Text) (s : os.State)
        → Below fs path q
        → P s
        → P (remove_path_recursive fs depth q s).1
    unfolding remove_path_recursive
    remove_path_recursive-holds zero q s b p = p
    remove_path_recursive-holds (suc depth) q s b p =
        by_probe
          (λ names e name u m r.
            remove_path_recursive-holds depth (join_path q name) u (child name names s e m b) r)
          (os.lstat s q)
      where
        emptied : Exec os.State (Unit {0})
        emptied =
            with_children fs q
              (each_child fs (λ name. remove_path_recursive fs depth (join_path q name)))

        removed : (u : os.State) → P u → P (reported fs (codes "rmdir") q (fs.rmdir q u)).1
        removed u r = reported-holds (codes "rmdir") q (fs.rmdir q u).0 _ (removes q u b r)

        by_probe :
            ((names : List Text)
              → fs.list_directory s q ≡ listed names
              → (name : Text) (u : os.State) → Among name names
              → P u
              → P (remove_path_recursive fs depth (join_path q name) u).1)
            → (f : Probe)
            → P
                (elim f as (λ _. Result (Unit {0}) × os.State) [
                  | failed errno ↦
                      if errno == enoent
                      then (ok tt, s)
                      else (make_io_error os (codes "lstat") q errno, s)
                  | found t ↦
                      if not (is_directory_type t)
                      then reported fs (codes "unlink") q (fs.unlink q s)
                      else (emptied >> (λ u. reported fs (codes "rmdir") q (fs.rmdir q u))) s
                ]).1
        by_probe again (failed errno) = if_done-keeps P (errno == enoent) _ _ (λ e. p) (λ e. p)
        by_probe again (found t) =
            if_done-keeps P (not (is_directory_type t)) _ _
              (λ e. reported-holds (codes "unlink") q (fs.unlink q s).0 _ (unlinks q s b p))
              (λ e.
                let after =
                  listed-holds q
                    (each_child fs (λ name. remove_path_recursive fs depth (join_path q name)))
                    (fs.list_directory s q) s p
                    (λ names g.
                      each_child-holds (λ name. remove_path_recursive fs depth (join_path q name))
                        names s (again names g) p) in
                lift-keeps P (emptied s).0 _ (emptied s).1 after
                  (λ a f. removed (emptied s).1 after))
