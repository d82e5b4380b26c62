-- ===== src/Protocol.antt =====
-- src/sync_protocol.cpp: the messages of the client.
pub mod Messages
pub mod Meeting
