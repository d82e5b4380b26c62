-- ===== src/Archive/Replaced.antt =====
-- That a restoration replaces both directories or neither.
use stmanager.Prelude.{Text, Bool, Option}
use stmanager.Status.{Result}
use stmanager.PathSafety.Disk.{Disk}
use stmanager.Archive.Targets.{Tree}
use stmanager.Archive.Places.{Place, old_data, old_extensions, IsAtomic, path_of}
use stmanager.Archive.Rollback.{Owed}
use stmanager.Archive.Installed.{Replacement}

module _ (t : Tree) (stage_root destination_root : Text)
    (h : IsAtomic t stage_root destination_root) where
  abbrev HadOwed : Bool → Bool → Place → Place → t.State → Option h.Content → Type 0
  HadOwed = Owed t stage_root destination_root h

  abbrev place : Place → Text
  place = path_of t stage_root destination_root

  module _ (s : t.State) where
    abbrev had_data : Bool
    had_data = t.exists (place old_data) s

    abbrev had_extensions : Bool
    had_extensions = t.exists (place old_extensions) s

    abbrev Ended : Result (Unit {0}) × t.State → Type 0
    Ended x = Replacement t stage_root destination_root h s x.0 x.1
