-- ===== src/Wire.antt =====
-- The framed protocol of src/tcp_transport.cpp: the sockets that it calls, the frames, the class
-- TcpSyncTransport, and what both ends agree on.
pub mod Socket
pub mod Words
pub mod Transfer
pub mod Frames
pub mod Delivery
pub mod Streams
pub mod Runs
pub mod Agreement
