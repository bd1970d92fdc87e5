-- ===== src/Crypto.antt =====
-- The wrappers of src/crypto around the post-quantum schemes, and the identity built from them.
pub mod Schemes
pub mod Dilithium
pub mod Kyber
pub mod Sphincs
pub mod Identity
