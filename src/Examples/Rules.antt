-- ===== src/Examples/Rules.antt =====
-- The consensus rules on a mined block with two payments of one sender, and on a genesis block.
use kyvera_core.Prelude.{
  decimal, ◌≤◌, ◌≡◌, ◌==◌, refl, false, List, [], ◌∷◌, codes, text_eq, ok, arith,
}
use kyvera_core.Prelude.Int.{pos, ◌+ℤ◌, ◌-ℤ◌}
use kyvera_core.Types.Account.{Account}
use kyvera_core.Types.Transaction.{Transaction}
use kyvera_core.Types.Block.{Block, new_header, new}
use kyvera_core.Chain.Hash.{
  hash_block_header, sha3_256_hex, meets_difficulty, all_zeros, decimal_ℤ, decimal_bool,
}
use kyvera_core.Chain.Merkle.{compute_merkle_root, build_next_layer, hash_pair}
use kyvera_core.Chain.Mining.{
  MinedBlock, hash_with_nonce, mine_block, mine_from, genesis_block_reward,
}
use kyvera_core.Chain.BlockProducer.{
  advance, genesis, genesis_header, micro_header, seal, hashes_of, mine_and_seal,
  produce_genesis_block,
}
use kyvera_core.Storage.AccountStore.Database.{db_store, get_account}
use kyvera_core.Storage.AccountStore.Database.Lawful.{db_store-Laws, saved, account_at}
use kyvera_core.Storage.Store.Laws.{contains}
use kyvera_core.Consensus.Rules.{
  validate_block_rules, check_height, check_previous_hash, check_block_size, check_timestamp,
  check_proof_of_work, check_block_hash, check_merkle_root, check_no_coinbase, check_account,
  check_kind, check_sender, check_transactions, check_transactions_from, min_interval,
  required_balance,
}
use kyvera_core.Consensus.Rules.History.{Faithful, Reaches-Faithful, at_origin, accepted}
use kyvera_core.Consensus.Rules.Chained.{
  Chained, validate_block_rules-Chained, validate_block_rules-produce_genesis_block,
}
use kyvera_core.Consensus.Rules.Spending.{cost, validate_block_rules_affordable}
use kyvera_core.Examples.Hashing.{toy_hasher}
use kyvera_core.Examples.ToyDb.{
  Db, toy_sled, toy_codec, toy_works, toy_lossless, empty_db, empty_db-Decodes,
}
use kyvera_core.Storage.Db.{entry_at, put_entry, drop_entry}
use kyvera_core.Prelude.{text_lt}
use kyvera_core.Examples.Ledger.{toy_laws, alice, account_with}
use kyvera_core.Examples.Blocks.{tip, payment}

abbrev rich_alice : Account
rich_alice = account_with alice 2_000_000 0

abbrev rich_db : Db
rich_db = saved toy_works toy_lossless rich_alice empty_db

rich_db-Wf : toy_laws.Wf rich_db
unfolding db_store-Laws
rich_db-Wf = toy_laws.saved-Wf empty_db rich_alice empty_db-Decodes

abbrev second_payment : Transaction
second_payment = record payment { hash = codes "0fe"; amount = 6 }

abbrev payments : List Transaction
payments = payment ∷ second_payment ∷ []

abbrev mined : MinedBlock
mined = record {
  nonce = 0;
  hash = hash_with_nonce (micro_header (pos 2_000) payments tip) 0;
  attempts = 1;
}

abbrev block : Block
block = seal (micro_header (pos 2_000) payments tip) (hashes_of payments) (codes "miner") 0 mined

block_later : (block.header.index == 0) ≡ false
unfolding seal new micro_header new_header
block_later = refl

block_accepted : validate_block_rules (pos 1_500) block payments tip rich_db ≡ ok tt
unfolding validate_block_rules check_height check_previous_hash check_block_size check_timestamp
    check_proof_of_work check_block_hash check_merkle_root check_no_coinbase check_account
    check_kind check_sender check_transactions check_transactions_from min_interval required_balance
    seal new micro_header new_header text_eq ◌+ℤ◌ ◌-ℤ◌ meets_difficulty all_zeros hash_with_nonce
    hash_block_header sha3_256_hex decimal decimal_ℤ decimal_bool compute_merkle_root
    build_next_layer hash_pair contains get_account entry_at put_entry drop_entry text_lt
block_accepted = refl

validate_block_rules-Chained_example : Chained block payments tip
validate_block_rules-Chained_example =
    validate_block_rules-Chained (pos 1_500) block payments tip rich_db block_later block_accepted

validate_block_rules_affordable_example :
    (cost second_payment ≤ 2_000_000) × (rich_alice.nonce ≡ second_payment.nonce)
validate_block_rules_affordable_example =
    validate_block_rules_affordable toy_laws (pos 1_500) block payments tip rich_db rich_db-Wf
      block_later block_accepted 1 second_payment rich_alice refl (unfold text_eq in refl)
      (unfold db_store-Laws account_at entry_at put_entry drop_entry text_lt text_eq in refl)
      (omega arith)

abbrev genesis_mined : MinedBlock
genesis_mined = record {
  nonce = 0;
  hash = hash_with_nonce (genesis_header (pos 100)) 0;
  attempts = 1;
}

abbrev genesis_block : Block
genesis_block =
    seal (genesis_header (pos 100)) [] (codes "miner") genesis_block_reward genesis_mined

genesis_produced : produce_genesis_block (pos 100) (codes "miner") ≡ ok genesis_block
unfolding produce_genesis_block mine_and_seal mine_block mine_from hash_with_nonce hash_block_header
    sha3_256_hex genesis_header new_header meets_difficulty all_zeros seal new decimal decimal_ℤ
    compute_merkle_root decimal_bool
genesis_produced = refl

validate_block_rules-produce_genesis_block_example :
    validate_block_rules (pos 0) genesis_block [] genesis empty_db ≡ ok tt
validate_block_rules-produce_genesis_block_example =
    validate_block_rules-produce_genesis_block (pos 100) (pos 0) (codes "miner") genesis_block
      genesis empty_db genesis_produced

-- The tip after that block.
Reaches-Faithful_example : Faithful Db tip (block ∷ []) (advance tip block)
Reaches-Faithful_example =
    Reaches-Faithful Db tip (block ∷ []) (advance tip block) (omega arith) (omega arith)
      (omega arith)
      (accepted at_origin (pos 1_500) block payments rich_db block_later block_accepted)
