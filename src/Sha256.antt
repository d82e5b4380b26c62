-- ===== src/Sha256.antt =====
-- src/raze_update.cpp: the class Sha256Context. The compression of one block is in Compress, the
-- context in Context, and the proofs that it computes the padded message's hash in the others.
pub mod Compress
pub mod Context
pub mod Buffer
pub mod Padding
pub mod Absorb
pub mod LastBlock
pub mod Digest
