-- ===== src/Chain/BlockProducer.antt =====
-- src/chain/block_producer.rs: the chain tip, the blocks that a node produces, and the check of a
-- block before it is accepted. The times of the clock are arguments.
pub mod Roundtrip
use kyvera_core.Prelude.{
  ℕ, ◌+◌, ◌-◌, ◌%◌, ◌^◌, Bool, true, false, not, Option, none, some, List, [], ◌∷◌, map, Text,
  codes, replicate, text_eq, ◌==◌, if◌then◌else◌, Result, ok, err, ◌>>◌, ensure,
}
use kyvera_core.Prelude.Int.{ℤ, pos, ltb_ℤ, ◌+ℤ◌}
use kyvera_core.Types.Account.{u64_mod}
use kyvera_core.Types.Transaction.{Transaction}
use kyvera_core.Types.Block.{BlockHeader, Block, new_header, new}
use kyvera_core.Chain.Hash.{Hasher, hash_block_header}
use kyvera_core.Chain.Merkle.{compute_merkle_root}
use kyvera_core.Chain.Mining.{
  MinedBlock, mine_block, verify_proof_of_work, calculate_block_reward, genesis_block_reward,
  hash_with_nonce,
}

pub record ChainTip : Type 0 where
  pub hash : Text
  pub height : ℕ
  pub timestamp : ℤ
  pub difficulty : ℕ
  pub epoch_index : ℕ
  pub total_work : ℕ

pub data BlockError : Type 0 where
  invalid_previous_hash : Text → Text → BlockError
  insufficient_proof_of_work invalid_timestamp invalid_merkle_root : BlockError
  invalid_height mining_failed : BlockError

-- `"0".repeat(64)`.
abbrev pub zero_hash : Text
zero_hash = replicate 64 b'0'

unfoldable pub genesis : ChainTip
genesis = record {
  hash = zero_hash;
  height = 0;
  timestamp = pos 0;
  difficulty = 1;
  epoch_index = 0;
  total_work = 0;
}

-- Additions on `u64` wrap, as in a release build.
unfoldable pub advance : ChainTip → Block → ChainTip
advance tip block = record {
  hash = block.hash;
  height = block.header.index;
  timestamp = block.header.timestamp;
  difficulty = block.header.difficulty;
  epoch_index = if block.header.is_epoch_block then block.header.epoch_index else tip.epoch_index;
  total_work = (tip.total_work + block.header.difficulty) % u64_mod;
}

-- `transactions.iter().map(|tx| tx.hash.clone())`.
abbrev pub hashes_of : List Transaction → List Text
hashes_of transactions = map (λ tx. tx.hash) transactions

module _ ⦃h : Hasher⦄ where
  -- The header that a producer puts on the tip, before it is mined.
  unfoldable pub micro_header : ℤ → List Transaction → ChainTip → BlockHeader
  unfolding new_header
  micro_header now transactions chain_tip =
      new_header now ((chain_tip.height + 1) % u64_mod) chain_tip.hash
        (compute_merkle_root (hashes_of transactions)) chain_tip.difficulty false
        chain_tip.epoch_index

  -- The block around a header with the nonce and the hash that mining found.
  unfoldable pub seal : BlockHeader → List Text → Text → ℕ → MinedBlock → Block
  unfolding new
  seal header hashes miner_address reward mined =
      record (new (record header { nonce = mined.nonce }) hashes miner_address reward) {
        hash = mined.hash;
      }

  -- The end that the three producers share.
  unfoldable pub mine_and_seal : BlockHeader → List Text → Text → ℕ → ℕ → Result BlockError Block
  mine_and_seal header hashes miner_address reward max_attempts =
      elim (mine_block header max_attempts) [
        | none ↦ err mining_failed
        | some mined ↦ ok (seal header hashes miner_address reward mined)
      ]

  unfoldable pub genesis_header : ℤ → BlockHeader
  unfolding new_header
  genesis_header now = new_header now 0 zero_hash (compute_merkle_root []) 1 true 0

  unfoldable pub produce_genesis_block : ℤ → Text → Result BlockError Block
  unfolding mine_and_seal
  produce_genesis_block now miner_address =
      mine_and_seal (genesis_header now) [] miner_address genesis_block_reward (2 ^ 64 - 1)

  unfoldable pub produce_micro_block :
      ℤ → List Transaction → ChainTip → Text → ℕ → Result BlockError Block
  unfolding new_header mine_and_seal
  produce_micro_block now transactions chain_tip miner_address max_attempts =
      mine_and_seal (micro_header now transactions chain_tip) (hashes_of transactions) miner_address
        0 max_attempts

  unfoldable pub produce_epoch_block :
      ℤ → List Text → ChainTip → Text → Text → ℕ → Result BlockError Block
  unfolding new_header mine_and_seal
  produce_epoch_block now micro_block_hashes chain_tip miner_address state_root max_attempts =
      let next_epoch_index = (chain_tip.epoch_index + 1) % u64_mod in
      mine_and_seal
        (record (new_header now ((chain_tip.height + 1) % u64_mod) chain_tip.hash
          (compute_merkle_root micro_block_hashes) chain_tip.difficulty true next_epoch_index) {
            state_root = state_root;
          })
        micro_block_hashes miner_address (calculate_block_reward next_epoch_index) max_attempts

  -- `now` is the clock of the node that checks.
  unfoldable pub validate_block :
      ℤ → Block → ChainTip → List Transaction → Result BlockError (Unit {0})
  validate_block now block chain_tip transactions = do
    ensure (block.header.index == (chain_tip.height + 1) % u64_mod) invalid_height
    ensure (text_eq block.header.previous_hash chain_tip.hash)
        (invalid_previous_hash chain_tip.hash block.header.previous_hash)
    ensure (verify_proof_of_work block.hash block.header.difficulty) insufficient_proof_of_work
    ensure (not (ltb_ℤ block.header.timestamp chain_tip.timestamp)) invalid_timestamp
    ensure (not (ltb_ℤ (now +ℤ pos 120_000) block.header.timestamp)) invalid_timestamp
    ensure (text_eq block.header.merkle_root (compute_merkle_root (hashes_of transactions)))
        invalid_merkle_root
    ensure (text_eq (hash_with_nonce block.header block.header.nonce) block.hash)
        insufficient_proof_of_work
