-- ===== src/Sha2.antt =====
-- sha2.c: SHA-1, SHA-256 and SHA-512, with the transforms that are compiled where
-- SHA2_UNROLL_TRANSFORM is not defined. The three hashes fill the interface of BlockHash.antt.
mod Tests
pub mod Words
pub mod Count
pub mod Registers
pub mod Compress
pub mod Sha1
pub mod Sha256
pub mod Sha512
pub mod Digest
pub mod Xor
