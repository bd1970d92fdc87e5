-- ===== src/Wallet.antt =====
-- The wallet (src/wallet): keys, seeds, encrypted files and signed transactions.
pub mod Keys
pub mod Seed
pub mod Builder
pub mod Storage
