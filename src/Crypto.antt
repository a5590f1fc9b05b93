-- ===== src/Crypto.antt =====
-- cpp/src/pmm/crypto/: hashing, the words of the EVM, EIP-712 digests and signatures.
pub mod Keccak
pub mod Words
pub mod Hex
pub mod Eip712
pub mod Signer
