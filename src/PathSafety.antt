-- ===== src/PathSafety.antt =====
-- src/path_safety.cpp: what guards the destination of a restore or an update. The texts are in
-- Paths, the file system that the code calls in Disk, and the walks over it in Ensure.
pub mod Paths
pub mod Disk
pub mod Ensure
pub mod Location
pub mod Guarantees
