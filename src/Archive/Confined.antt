-- ===== src/Archive/Confined.antt =====
-- That the extraction of an archive stays below its directory.
use stmanager.Prelude.{ℕ, Text, none, some}
use stmanager.PathSafety.Disk.{Disk, IsPosix}
use stmanager.Files.Calls.{FileCalls}
use stmanager.Archive.Entries.{ArchiveReader}
use stmanager.Archive.Touches.{Touched}

module _ {os : Disk} (posix : IsPosix os) (fs : FileCalls os) (root : Text) where
  module _ (ar : ArchiveReader) (s : os.State) where
    abbrev Confined : ar.Reader × os.State → Type 0
    Confined x = Touched fs root s none x.1

    abbrev WritingTo : ℕ → ar.Reader × os.State → Type 0
    WritingTo fd x = Touched fs root s (some fd) x.1
