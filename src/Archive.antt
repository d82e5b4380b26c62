-- ===== src/Archive.antt =====
-- src/archive_stream.cpp: reading an archive into a staging directory, and from there to its place.
pub mod Targets
pub mod Places
pub mod Rollback
pub mod Kept
pub mod Slots
pub mod Atomic
pub mod Survived
pub mod Installed
pub mod Replaced
pub mod Entries
pub mod Restore
pub mod Touches
pub mod Walks
pub mod Confined
pub mod Temp
pub mod Write
pub mod Backup
pub mod Cleared
pub mod Answers
pub mod Rounds
pub mod Ends
pub mod Implementation
