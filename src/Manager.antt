-- ===== src/Manager.antt =====
-- src/sync.cpp: the class Manager, the library's entry.
pub mod State
pub mod Targets
pub mod PairSync
pub mod Chosen
pub mod Restored
pub mod Ready
pub mod Serve
pub mod Serving
pub mod Counting
pub mod Counted
pub mod Unremembered
