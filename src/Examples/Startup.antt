-- ===== src/Examples/Startup.antt =====
-- The initialisation of an empty database.
use kyvera_core.Prelude.{
  ◌+◌, ◌<◌, ◌^◌, ◌≡◌, refl, true, List, [], ◌∷◌, some, Text, decimal, text_eq, is_utf8, ok, err,
  arith,
}
use kyvera_core.Prelude.Int.{ℤ, pos}
use kyvera_core.Types.Account.{new}
use kyvera_core.Types.Block as Block
use kyvera_core.Types.Block.{Block, new_header}
use kyvera_core.Chain.Hash.{
  hash_block_header, sha3_256_hex, meets_difficulty, all_zeros, decimal_ℤ, decimal_bool,
}
use kyvera_core.Chain.Merkle.{compute_merkle_root}
use kyvera_core.Chain.Mining.{
  MinedBlock, hash_with_nonce, mine_block, mine_from, genesis_block_reward,
}
use kyvera_core.Chain.BlockProducer.{
  genesis, advance, genesis_header, seal, mine_and_seal, produce_genesis_block,
}
use kyvera_core.Storage.Exec.{already_initialized}
use kyvera_core.Storage.Db.{entry_at}
use kyvera_core.Storage.Store.Laws.{supply, distinct, contains}
use kyvera_core.Storage.AccountStore.Database.Lawful.{db_store-Laws, account_at}
use kyvera_core.Storage.BlockStore.{load_chain_tip}
use kyvera_core.Storage.StateTrie.{treasury_address}
use kyvera_core.Consensus.Genesis.{
  total_supply, mining_allocation, ecosystem_address, founder_address, community_address,
}
use kyvera_core.Consensus.Genesis.Startup.{
  genesis_miner, initialize_chain, verify_genesis_integrity,
}
use kyvera_core.Consensus.Genesis.Integrity.{initialize_chain-integrity}
use kyvera_core.Examples.ToyDb.{
  Db, toy_sled, toy_codec, toy_works, toy_lossless, empty_db, empty_db-Decodes,
}
use kyvera_core.Examples.Codecs.{block_codec, block_lossless, tip_codec, tip_lossless}
use kyvera_core.Examples.Hashing.{toy_hasher}
use kyvera_core.Examples.Ledger.{toy_laws}

abbrev funds : List Text
funds = ecosystem_address ∷ founder_address ∷ community_address ∷ treasury_address ∷ []

abbrev first_mined : MinedBlock
first_mined = record {
  nonce = 0;
  hash = hash_with_nonce (genesis_header (pos 100)) 0;
  attempts = 1;
}

abbrev first_block : Block
first_block = seal (genesis_header (pos 100)) [] genesis_miner genesis_block_reward first_mined

first_block_produced : produce_genesis_block (pos 100) genesis_miner ≡ ok first_block
unfolding produce_genesis_block mine_and_seal mine_block mine_from hash_with_nonce hash_block_header
    sha3_256_hex genesis_header new_header meets_difficulty all_zeros seal Block.new decimal
    decimal_ℤ compute_merkle_root decimal_bool
first_block_produced = refl

funds_empty : supply toy_laws funds empty_db < 2 ^ 63
unfolding supply db_store-Laws account_at entry_at new
funds_empty = omega arith

first_hash_text : is_utf8 first_block.hash ≡ true
unfolding is_utf8 hash_with_nonce hash_block_header sha3_256_hex genesis_header new_header seal
    Block.new decimal decimal_ℤ compute_merkle_root decimal_bool
first_hash_text = refl

initialize_chain-integrity_example :
    (db' : Db) × (initialize_chain (pos 100) empty_db ≡ (ok (advance genesis first_block), db'))
    × ((verify_genesis_integrity db').0 ≡ ok true)
    × (load_chain_tip db' ≡ (ok (some (advance genesis first_block)), db'))
    × ((later : ℤ) → initialize_chain later db' ≡ (err (already_initialized 0), db'))
    × (supply toy_laws funds db' + mining_allocation
        ≡ supply toy_laws funds empty_db + total_supply + genesis_block_reward)
initialize_chain-integrity_example =
    initialize_chain-integrity toy_works toy_lossless block_lossless tip_lossless funds
      (unfold distinct contains text_eq in refl) (pos 100) empty_db first_block
      (empty_db-Decodes, tt) (unfold entry_at in refl) (unfold contains text_eq in refl)
      (unfold contains text_eq in refl) (unfold contains text_eq in refl)
      (unfold contains text_eq in refl) funds_empty first_block_produced first_hash_text
