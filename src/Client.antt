-- ===== src/Client.antt =====
-- src/sync.cpp: the class SyncManager, the side that pairs.
pub mod Pair
pub mod Grants
pub mod Sync
pub mod Branches
pub mod Pulls
pub mod Links
