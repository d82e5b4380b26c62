-- ===== src/Archive/Atomic.antt =====
-- That `move_or_copy_path` and `remove_path_recursive` of src/fs_ops.cpp do at the paths of a
-- restoration what it relies on, by what the operating system does there.
use stmanager.Prelude.{
  ℕ, zero, suc, Text, true, false, codes, not, Option, none, some, ◌==◌, ◌≡◌, ◌≢◌, refl, sym, ap,
  ◌∙◌, if◌then◌else◌,
}
use stmanager.Status.{Status, Result, ok, err, Exec, ◌>>◌}
use stmanager.PathSafety.Disk.{Probe, found, failed, Disk, enoent}
use stmanager.PathSafety.Paths.{join_path, parent_directory}
use stmanager.PathSafety.Ensure.{is_directory_type, ensure_parent_directories}
use stmanager.Client.Branches.{bind-holds, done_choice-holds}
use stmanager.Files.Calls.{
  FileCalls, exdev, is_found, is_found_directory, path_exists, path_is_directory, make_io_error,
}
use stmanager.Files.Copy.{each_child, with_children}
use stmanager.Files.Remove.{reported, remove_path_recursive}
use stmanager.Files.Move.{renamed, move_or_copy_path}
use stmanager.Archive.Targets.{file_tree}
use stmanager.Archive.Places.{Place, path_of, is_some, IsAtomic}
use stmanager.Archive.Slots.{
  AncestorOf, Below, itself, ensure_parent_directories-holds, remove_path_recursive-holds,
}

-- At the paths of a restoration, `slot` is the file or the directory with all it holds: `lstat` finds
-- whether there is one; making a directory on the way to one of the paths changes none; `rename` to
-- a free path moves it, or fails and changes nothing, and the paths are on one device; `unlink` and
-- `rmdir` at a path or below it change no other, and leave none at the path itself if they succeed.
pub record IsSlotted {os : Disk} (fs : FileCalls os) (path : Place → Text) : Type 1 where
  pub Content : Type 0
  pub slot : os.State → Place → Option Content
  pub lstat-slot : (p : Place) (s : os.State) → is_found (os.lstat s (path p)) ≡ is_some (slot s p)
  pub mkdir-slot :
      (p o : Place) (q : Text) (mode : ℕ) (s : os.State)
      → AncestorOf (parent_directory (path p)) q
      → slot (os.mkdir s q mode).1 o ≡ slot s o
  pub rename-ok :
      (p q : Place) (s : os.State)
      → p ≢ q
      → slot s q ≡ none
      → (fs.rename (path p) (path q) s).0 ≡ none
      → (slot (fs.rename (path p) (path q) s).1 q ≡ slot s p)
        × (slot (fs.rename (path p) (path q) s).1 p ≡ none)
        × ((o : Place) → o ≢ p → o ≢ q → slot (fs.rename (path p) (path q) s).1 o ≡ slot s o)
  pub rename-failed :
      (p q o : Place) (s : os.State) (errno : ℕ)
      → (fs.rename (path p) (path q) s).0 ≡ some errno
      → slot (fs.rename (path p) (path q) s).1 o ≡ slot s o
  pub one_device :
      (p q : Place) (s : os.State) (errno : ℕ)
      → (fs.rename (path p) (path q) s).0 ≡ some errno
      → (errno == exdev) ≡ false
  pub unlink-slot :
      (p o : Place) (q : Text) (s : os.State)
      → Below fs (path p) q
      → o ≢ p
      → slot (fs.unlink q s).1 o ≡ slot s o
  pub rmdir-slot :
      (p o : Place) (q : Text) (s : os.State)
      → Below fs (path p) q
      → o ≢ p
      → slot (fs.rmdir q s).1 o ≡ slot s o
  pub unlink-gone :
      (p : Place) (s : os.State)
      → (fs.unlink (path p) s).0 ≡ none
      → slot (fs.unlink (path p) s).1 p ≡ none
  pub rmdir-gone :
      (p : Place) (s : os.State)
      → (fs.rmdir (path p) s).0 ≡ none
      → slot (fs.rmdir (path p) s).1 p ≡ none

none_if_missing : {A : Type 0} (o : Option A) → is_some o ≡ false → o ≡ none
none_if_missing none e = refl
none_if_missing (some a) e = cc

directory_found : (p : Probe) → is_found_directory p ≡ true → is_found p ≡ true
directory_found (found t) e = refl
directory_found (failed n) e = cc

module _ {os : Disk} (fs : FileCalls os) (rounds depth : ℕ) (path : Place → Text)
    (h : IsSlotted fs path) where
  abbrev AsBefore : os.State → os.State → Type 0
  AsBefore s t = (o : Place) → h.slot t o ≡ h.slot s o

  -- What a move makes of the slots, by its result.
  pub record Moved (p q : Place) (s : os.State) (x : Result (Unit {0}) × os.State) : Type 0 where
    pub moved :
        p ≢ q
        → x.0 ≡ ok tt
        → (h.slot s q ≡ none)
          × (h.slot x.1 q ≡ h.slot s p)
          × (h.slot x.1 p ≡ none)
          × ((o : Place) → o ≢ p → o ≢ q → h.slot x.1 o ≡ h.slot s o)
    pub failed_move : (e : Status) → x.0 ≡ err e → AsBefore s x.1

  renamed-Moved :
      (p q : Place) (s u : os.State)
      → h.slot s q ≡ none
      → AsBefore s u
      → (o : Option ℕ) → (fs.rename (path p) (path q) u).0 ≡ o
      → Moved p q s
          (renamed fs rounds depth (path p) (path q) (o, (fs.rename (path p) (path q) u).1))
  unfolding make_io_error
  renamed-Moved p q s u free k none e = record {
    moved = λ d x.
        let (to, left, others) = h.rename-ok p q u d (k q ∙ free) e in
        (free, to ∙ k p, left, λ o a b. others o a b ∙ k o);
    failed_move = λ f x. cc;
  }
  renamed-Moved p q s u free k (some errno) e =
      rw (h.one_device p q u errno e)
        (record { moved = λ d x. cc; failed_move = λ f x o. h.rename-failed p q o u errno e ∙ k o })

  pub move_or_copy_path-Moved :
      (p q : Place) (s : os.State)
      → Moved p q s (move_or_copy_path fs rounds depth (path p) (path q) s)
  unfolding move_or_copy_path path_exists
  move_or_copy_path-Moved p q s =
      done_choice-holds (Moved p q s) (not (path_exists os (path p) s)) _ _
        (λ e. record { moved = λ d x. cc; failed_move = λ f x o. refl })
        (λ e.
          done_choice-holds (Moved p q s) (path_exists os (path q) s) _ _
            (λ e. record { moved = λ d x. cc; failed_move = λ f x o. refl })
            (λ missing.
              let y = ensure_parent_directories os (path q) 493 s in
              let k : AsBefore s y.1 =
                ensure_parent_directories-holds os (AsBefore s) (path q) 493 s
                  (λ r mode u way b o. h.mkdir-slot q o r mode u way ∙ b o) (λ o. refl) in
              bind-holds (Moved p q s) (ensure_parent_directories os (path q) 493) _ s
                (record { moved = λ d x. cc; failed_move = λ f x. cc })
                (λ w. record { moved = λ d x. cc; failed_move = λ f x. cc })
                (λ e'. record { moved = λ d x. cc; failed_move = λ f x. k })
                (λ a g.
                  renamed-Moved p q s y.1
                    (none_if_missing (h.slot s q) (sym (h.lstat-slot q s) ∙ missing)) k
                    (fs.rename (path p) (path q) y.1).0 refl)))

  remove-others :
      (p o : Place) (n : ℕ) (s : os.State)
      → o ≢ p
      → h.slot (remove_path_recursive fs n (path p) s).1 o ≡ h.slot s o
  remove-others p o n s d =
      remove_path_recursive-holds fs (λ u. h.slot u o ≡ h.slot s o) (path p)
        (λ q u b e. h.unlink-slot p o q u b d ∙ e) (λ q u b e. h.rmdir-slot p o q u b d ∙ e) n
        (path p) s itself refl

  reported-gone :
      (p : Place) (action : Text) (o : Option ℕ) (s : os.State)
      → (o ≡ none → h.slot s p ≡ none)
      → (reported fs action (path p) (o, s)).0 ≡ ok tt
      → h.slot (reported fs action (path p) (o, s)).1 p ≡ none
  unfolding make_io_error
  reported-gone p action none s g e = g refl
  reported-gone p action (some n) s g e = cc

  remove-gone :
      (p : Place) (n : ℕ) (s : os.State)
      → (remove_path_recursive fs n (path p) s).0 ≡ ok tt
      → h.slot (remove_path_recursive fs n (path p) s).1 p ≡ none
  unfolding remove_path_recursive make_io_error
  remove-gone p zero s = λ e. cc
  remove-gone p (suc n) s = by_probe (os.lstat s (path p)) refl
    where
      Gone : Result (Unit {0}) × os.State → Type 0
      Gone x = x.0 ≡ ok tt → h.slot x.1 p ≡ none

      emptied : Exec os.State (Unit {0})
      emptied =
          with_children fs (path p)
            (each_child fs (λ name. remove_path_recursive fs n (join_path (path p) name)))

      by_probe :
          (f : Probe)
          → os.lstat s (path p) ≡ f
          → Gone (elim f as (λ _. Result (Unit {0}) × os.State) [
            | failed errno ↦
                if errno == enoent
                then (ok tt, s)
                else (make_io_error os (codes "lstat") (path p) errno, s)
            | found t ↦
                if not (is_directory_type t)
                then reported fs (codes "unlink") (path p) (fs.unlink (path p) s)
                else (emptied >> (λ u. reported fs (codes "rmdir") (path p) (fs.rmdir (path p) u)))
                    s
          ])
      by_probe (failed errno) e =
          done_choice-holds Gone (errno == enoent) _ _
            (λ f x. none_if_missing (h.slot s p) (sym (h.lstat-slot p s) ∙ ap is_found e))
            (λ f x. cc)
      by_probe (found t) e =
          done_choice-holds Gone (not (is_directory_type t)) _ _
            (λ f.
              reported-gone p (codes "unlink") (fs.unlink (path p) s).0 (fs.unlink (path p) s).1
                (h.unlink-gone p s))
            (λ f.
              bind-holds Gone emptied _ s (λ x. cc) (λ w x. cc) (λ g x. cc)
                (λ a g.
                  reported-gone p (codes "rmdir") (fs.rmdir (path p) (emptied s).1).0
                    (fs.rmdir (path p) (emptied s).1).1 (h.rmdir-gone p (emptied s).1)))

-- The functions of src/fs_ops.cpp are what a restoration relies on.
pub file_tree-IsAtomic :
    {os : Disk} (fs : FileCalls os) (rounds depth : ℕ) (stage_root destination_root : Text)
    → IsSlotted fs (path_of (file_tree fs rounds depth) stage_root destination_root)
    → IsAtomic (file_tree fs rounds depth) stage_root destination_root
unfolding path_exists path_is_directory
file_tree-IsAtomic {os} fs rounds depth stage_root destination_root h =
    let path = path_of (file_tree fs rounds depth) stage_root destination_root in
    record {
      Content = h.Content;
      slot = h.slot;
      exists-slot = h.lstat-slot;
      is_directory-slot = λ p s e. sym (h.lstat-slot p s) ∙ directory_found (os.lstat s (path p)) e;
      move-ok = λ p q s d e. (move_or_copy_path-Moved fs rounds depth path h p q s).moved d e;
      move-failed =
          λ p q s f e. (move_or_copy_path-Moved fs rounds depth path h p q s).failed_move f e;
      remove-ok = λ p s e. (
        remove-gone fs rounds depth path h p depth s e,
        λ o n. remove-others fs rounds depth path h p o depth s n,
      );
      remove-failed = λ p s f e o n. remove-others fs rounds depth path h p o depth s n;
    }
