-- ===== src/Tests/Archives.antt =====
-- The theorem of the restoration at a tree in memory.
use stmanager.Prelude.{
  ℕ, [], length, Text, codes, text_eq, ◌&&◌, not, Option, none, some, if◌then◌else◌,
}
use stmanager.Archive.Targets.{Tree, file_tree}
use stmanager.Archive.Places.{
  Place, old_data, old_extensions, backup_data, backup_extensions, staged_data, staged_extensions,
  manifest, staged_manifest, path_of, is_some,
}
use stmanager.PathSafety.Disk.{Probe, found, failed, directory, enoent, Disk}
use stmanager.Files.Calls.{listed, opened, bytes_read, bytes_written, made, FileCalls}

Place-discrete : Discrete Place
Place-discrete = hlevel

abbrev Slots : Type 0
Slots = Place → Option ℕ

abbrev put : Place → Option ℕ → Slots → Slots
put p v s o = elim (Place-discrete o p) [ yes e ↦ v | no n ↦ s o ]

-- The place at a path, for a staging directory `t` in a root `r`.
unfoldable place_at : Text → Option Place
place_at path =
    if text_eq path (codes "r/data")
    then some old_data
    else if text_eq path (codes "r/public/scripts/extensions/third-party")
    then some old_extensions
    else if text_eq path (codes "t/.stmanager-restore-old-data")
    then some backup_data
    else if text_eq path (codes "t/.stmanager-restore-old-extensions")
    then some backup_extensions
    else if text_eq path (codes "t/data")
    then some staged_data
    else if text_eq path (codes "t/extensions")
    then some staged_extensions
    else if text_eq path (codes "r/.stmanager/extensions_git_manifest.json")
    then some manifest
    else if text_eq path (codes "t/.stmanager/extensions_git_manifest.json")
    then some staged_manifest
    else none

abbrev at_place : {A : Type 0} → Option Place → A → (Place → A) → A
at_place none a f = a
at_place (some p) a f = f p

abbrev renamed_place : Place → Place → Slots → Option ℕ × Slots
renamed_place p q s =
    if is_some (s p) && not (is_some (s q)) then (none, put p none (put q (s p) s)) else (some 5, s)

abbrev probe_place : Place → Slots → Probe
probe_place p s = if is_some (s p) then found directory else failed enoent

abbrev removed_at : Text → Slots → Option ℕ × Slots
removed_at path s = at_place (place_at path) (some 5, s) (λ p. (none, put p none s))

-- A disk on which empty directories stand at the paths of a restoration, and every other path is a
-- directory.
abbrev slot_disk : Disk
slot_disk = record {
  State = Slots;
  lstat = λ s path. at_place (place_at path) (found directory) (λ p. probe_place p s);
  stat = λ s path. at_place (place_at path) (found directory) (λ p. probe_place p s);
  mkdir = λ s path mode. (none, s);
  strerror = λ errno. [];
}

abbrev slot_calls : FileCalls slot_disk
slot_calls = record {
  permissions = λ s path. 493;
  file_size = λ s path. 0;
  modified = λ s path. 0;
  list_directory = λ s path. listed [];
  open_read = λ path s. (opened 3, s);
  open_write_trunc = λ path mode s. (opened 4, s);
  read_fd = λ fd n s. (bytes_read [], s);
  write_fd = λ fd bytes s. (bytes_written (length bytes), s);
  close_fd = λ fd s. s;
  unlink = removed_at;
  rmdir = removed_at;
  rename = λ source destination s.
      at_place (place_at source) (some 5, s)
        (λ p. at_place (place_at destination) (some 5, s) (λ q. renamed_place p q s));
  mkstemp = λ template s. (made template, s);
  mkdtemp = λ template s. (made template, s);
}

abbrev slots : Tree
slots = file_tree slot_calls 9 9

abbrev slot_path : Place → Text
slot_path = path_of slots (codes "t") (codes "r")

-- Data to be replaced, no extensions, and a full staging directory.
abbrev before_restore : Slots
before_restore old_data = some 1
before_restore staged_data = some 2
before_restore staged_extensions = some 3
before_restore old_extensions = none
before_restore backup_data = none
before_restore backup_extensions = none
before_restore manifest = none
before_restore staged_manifest = none
