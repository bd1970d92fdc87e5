-- ===== src/Examples/Blocks.antt =====
-- A produced block on the small hasher.
use kyvera_core.Prelude.{decimal, ◌≡◌, refl, List, [], ◌∷◌, ok, codes}
use kyvera_core.Prelude.Int.{pos, ◌+ℤ◌}
use kyvera_core.Types.Transaction.{Transaction, transfer}
use kyvera_core.Types.Block.{Block, new_header, new}
use kyvera_core.Chain.Hash.{
  hash_block_header, sha3_256_hex, meets_difficulty, all_zeros, decimal_ℤ, decimal_bool,
}
use kyvera_core.Chain.Merkle.{compute_merkle_root}
use kyvera_core.Chain.Mining.{MinedBlock, hash_with_nonce, mine_block, mine_from}
use kyvera_core.Chain.BlockProducer.{
  ChainTip, micro_header, seal, mine_and_seal, produce_micro_block, validate_block, hashes_of,
}
use kyvera_core.Chain.BlockProducer.Roundtrip.{validate_block-produce_micro_block}
use kyvera_core.Examples.Hashing.{toy_hasher}

abbrev pub tip : ChainTip
tip = record {
  hash = codes "0abc";
  height = 4;
  timestamp = pos 1_000;
  difficulty = 1;
  epoch_index = 1;
  total_work = 5;
}

abbrev pub payment : Transaction
payment = record {
  hash = codes "0ff";
  sender = codes "alice";
  receiver = codes "bob";
  amount = 5;
  fee = 1_000_000;
  nonce = 0;
  signature = codes "s";
  timestamp = pos 900;
  transaction_type = transfer;
  payload = [];
}

abbrev payments : List Transaction
payments = payment ∷ []

abbrev mined : MinedBlock
mined = record {
  nonce = 0;
  hash = hash_with_nonce (micro_header (pos 2_000) payments tip) 0;
  attempts = 1;
}

abbrev micro_block : Block
micro_block =
    seal (micro_header (pos 2_000) payments tip) (hashes_of payments) (codes "miner") 0 mined

micro_block_produced :
    produce_micro_block (pos 2_000) payments tip (codes "miner") 3 ≡ ok micro_block
unfolding produce_micro_block mine_and_seal mine_block mine_from hash_with_nonce hash_block_header
    sha3_256_hex micro_header new_header meets_difficulty all_zeros seal new decimal decimal_ℤ
    compute_merkle_root decimal_bool
micro_block_produced = refl

validate_block-produce_micro_block_example :
    validate_block (pos 1_500) micro_block tip payments ≡ ok tt
validate_block-produce_micro_block_example =
    validate_block-produce_micro_block (pos 2_000) (pos 1_500) payments tip (codes "miner") 3
      micro_block (refl, unfold ◌+ℤ◌ in refl) micro_block_produced
