-- ===== src/FdStream.antt =====
-- src/fd_stream.cpp: the stream buffers over a descriptor.
pub mod Buffers
pub mod Accounts
