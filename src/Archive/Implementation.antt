-- ===== src/Archive/Implementation.antt =====
-- The archive code that the data manager calls, by the functions of src/archive_stream.cpp.
use stmanager.Prelude.{ℕ}
use stmanager.PathSafety.Disk.{Disk}
use stmanager.DataManager.{Archives}
use stmanager.Files.Calls.{FileCalls}
use stmanager.Archive.Entries.{ArchiveReader}
use stmanager.Archive.Restore.{restore_backup_archive}
use stmanager.Archive.Write.{ArchiveWriter}
use stmanager.Archive.Backup.{BackupSetup, write_backup_archive}

abbrev pub file_archives :
    {os : Disk} (fs : FileCalls os)
    → ArchiveReader
    → ArchiveWriter os
    → BackupSetup fs
    → ℕ
    → Archives os
file_archives fs ar aw setup entries = record {
  write_backup_archive = write_backup_archive fs aw setup;
  restore_backup_archive = restore_backup_archive fs ar setup.rounds setup.depth entries;
}
