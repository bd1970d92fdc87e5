-- ===== src/Consensus.antt =====
-- The rewards of epoch blocks and the validators (src/consensus).
pub mod Coinbase
pub mod Validators
pub mod Rules
pub mod Genesis
pub mod Staking
