-- ===== src/Mempool.antt =====
-- The pool of pending transactions and the fees (src/mempool).
pub mod Fees
pub mod Pool
