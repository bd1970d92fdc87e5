-- ===== src/Lib.antt =====
-- Kyvera core: accounts, mempool, chain, storage, consensus, cryptography wrappers and wallet of the
-- Kyvera Continuum node.
--
-- The program keeps accounts in a key-value database. Transactions wait in a mempool; a producer
-- puts them in micro blocks, whose header commits to a Merkle root and is mined; epoch blocks
-- commit to micro blocks and pay the miner and the validators. A state transition applies each
-- transaction to the accounts, and snapshots allow a rollback. A wallet holds the key pairs, builds
-- and signs transactions, and keeps itself in an encrypted file.
--
-- Which file models which code, and how:
--   Types/Account, Types/Transaction, Types/Block: src/types, the records with their fields.
--   Mempool/Fees: src/mempool/fees.rs, `minimum_fee`, `calculate_fee_split` and its parts.
--   Mempool/Pool: src/mempool/pool.rs. `Mempool` is the record of the three collections; a method
--     on `&mut self` takes the pool and returns the next one. Pool/Index, Pool/Invariant,
--     Pool/Insertion, Pool/Order, Pool/Admission and Pool/Ranking hold the proofs.
--   Chain/Hash, Chain/Merkle, Chain/Mining: src/chain/hash.rs, merkle.rs and mining.rs.
--   Chain/BlockProducer: src/chain/block_producer.rs, `ChainTip`, the producers, `validate_block`.
--   Storage/Db: src/storage/db.rs over the parameter `Sled`. Storage/Exec is the monad of functions
--     on `&KyveraDb` that return a `Result`: a write before an error stays.
--   Storage/Store: the interface between the accounts and their clients, with its laws in
--     Store/Laws. Storage/AccountStore: src/storage/account_store.rs; AccountStore/Database
--     implements the interface over the database, with the laws in Database/Lawful.
--   Storage/StateTrie: src/storage/state_trie.rs, `apply_transaction` and the snapshots, over the
--     interface. StateTrie/Ledger is the abstract view that the transition is compared with.
--   Storage/StateRoot, Storage/SnapshotStack: the same file over the database, `compute_state_root`,
--     `save_snapshot` and `get_snapshot_count`.
--   Storage/BlockStore, Storage/TxStore: src/storage/block_store.rs and tx_store.rs.
--     Storage/Db/Ordered and Db/Lookup are about lists of entries.
--   Consensus/Coinbase, Consensus/Validators: src/consensus/coinbase.rs and validators.rs.
--   Consensus/Rules: src/consensus/rules.rs, `validate_block_rules` and its checks in their order.
--     Rules/History is the relation between a tip and the tips reached by accepting blocks.
--   Consensus/Genesis: src/consensus/genesis.rs, the allocations; Genesis/Startup has
--     `initialize_chain` and `verify_genesis_integrity`.
--   Consensus/Staking: src/consensus/staking.rs, requests to unstake and their release.
--   Crypto/Dilithium, Crypto/Kyber, Crypto/Sphincs, Crypto/Identity: src/crypto/dilithium.rs,
--     kyber.rs, sphincs.rs and mod.rs, over the crates in Crypto/Schemes.
--   Wallet/Keys, Wallet/Seed, Wallet/Builder, Wallet/Storage: src/wallet/keys.rs, seed.rs,
--     transaction_builder.rs and storage.rs. `Files` is the file system that a wallet file touches.
--   Prelude: shared names, lists, texts, integers and maps. Examples: concrete inputs.
--
-- Machine arithmetic is that of a release build: `+`, `-` and `*` on `u64`, `u32` and `i64` wrap,
-- `checked_` and `saturating_` calls are written out. A `String` is the list of its bytes. The clock
-- (`Utc::now`) is an argument.
--
-- Loops: the Merkle layers run on fuel for the length of the list, enough since each layer has half
-- the length of the one below; `mine_block` recurses on the attempts that are left, its own bound;
-- the loop of `calculate_mined_supply` has fuel for the height and two, one for each height from 0
-- on and one for the test that ends it. All other loops follow the list they go through.
--
-- Parameters stand for code outside the repository: `Hasher` (sha3 and hex, nothing assumed), `Sled`
-- (the tree store), `Codec` (serde_json), `Schemes` (the post-quantum crates and `hex::decode`),
-- `Cipher` (aes_gcm) and `Bip39`. `Works` says that a tree that does not fail reads what was written
-- and iterates in the order of its keys, `Lossless` that a value decodes from its encoding, `Sound`
-- that keys and signatures survive their bytes and that the two sides of a scheme agree, `Opens` that
-- a text is decrypted under the key and nonce that encrypted it. Examples/ToyDb, Examples/Codecs and
-- Examples/Secrets have small instances of all of them. Randomness is an argument.
--
-- Not modelled: code on `f64` (the fee multiplier, `estimate_hash_rate`), opening and flushing the
-- database, half-written files, and the command line of src/bin/wallet.rs, which reads and prints on
-- the terminal.
pub mod Prelude
pub mod Types
pub mod Mempool
pub mod Chain
pub mod Storage
pub mod Consensus
pub mod Crypto
pub mod Wallet
mod Examples
