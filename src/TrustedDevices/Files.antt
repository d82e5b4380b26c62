-- ===== src/TrustedDevices/Files.antt =====
-- The files that src/trusted_device_store.cpp reads and writes, on an unknown disk.
use stmanager.Prelude.{Text, Option, some, ◌≡◌}

-- How writing a file can go: it is not opened, it is opened (and emptied) but not written whole,
-- or it holds the text.
pub data WriteResult : Type 0 where
  not_opened cut_short complete : WriteResult

pub record FileSystem : Type 1 where
  pub Disk : Type 0
  -- the contents, or `none` if the file does not open
  pub read_file : Disk → Text → Option Text
  pub write_file : Disk → Text → Text → WriteResult × Disk

-- A file that was written whole is read back.
pub record IsFaithful (fs : FileSystem) : Type 0 where
  pub read-write :
      (d : fs.Disk) (path contents : Text)
      → (fs.write_file d path contents).0 ≡ complete
      → fs.read_file (fs.write_file d path contents).1 path ≡ some contents
