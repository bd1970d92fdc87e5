-- ===== src/Types.antt =====
-- The data that every part shares (src/types): accounts, transactions and blocks.
pub mod Account
pub mod Transaction
pub mod Block
