-- ===== src/Chain.antt =====
-- Hashing, Merkle trees, mining and block production (src/chain).
pub mod Hash
pub mod Mining
pub mod Merkle
pub mod BlockProducer
