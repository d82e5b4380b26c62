-- ===== src/Task.antt =====
-- src/sync.cpp: the class SyncTaskHandle and its Impl, the handle of a sync that runs in a thread.
pub mod Handle
pub mod Threads
pub mod Reached
pub mod Ends
pub mod Promise
