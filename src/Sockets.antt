-- ===== src/Sockets.antt =====
-- The sockets of the operating system, and what src/tcp_transport.cpp makes of them.
pub mod Calls
pub mod Table
pub mod Tcp
pub mod Owned
