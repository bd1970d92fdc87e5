-- ===== src/Storage.antt =====
-- The durable state and the transition of accounts (src/storage).
pub mod Exec
pub mod Db
pub mod Store
pub mod AccountStore
pub mod StateTrie
pub mod BlockStore
pub mod TxStore
pub mod StateRoot
pub mod SnapshotStack
