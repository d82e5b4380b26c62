-- ===== src/Server.antt =====
-- src/sync_server.cpp: the sync server, from its socket to what it answers to a client.
pub mod Replies
pub mod Requests
pub mod Trust
pub mod Archive
pub mod Delivery
pub mod Pairing
pub mod Listen
pub mod Serve
pub mod Rounds
pub mod Bound
pub mod Released
pub mod Stopped
pub mod Kept
