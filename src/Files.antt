-- ===== src/Files.antt =====
-- src/fs_ops.cpp: files and directories are copied, moved and removed.
pub mod Calls
pub mod Copy
pub mod Remove
pub mod Move
