-- ===== src/Types/Block.antt =====
-- src/types/block.rs: blocks and their headers. The time is an argument where the code reads the
-- clock.
use kyvera_core.Prelude.{ℕ, Bool, List, [], Text}
use kyvera_core.Prelude.Int.{ℤ}

pub record BlockHeader : Type 0 where
  pub index : ℕ
  pub timestamp : ℤ
  pub previous_hash : Text
  pub merkle_root : Text
  pub nonce : ℕ
  pub difficulty : ℕ
  pub is_epoch_block : Bool
  pub epoch_index : ℕ
  pub state_root : Text

unfoldable pub new_header : ℤ → ℕ → Text → Text → ℕ → Bool → ℕ → BlockHeader
new_header now index previous_hash merkle_root difficulty is_epoch_block epoch_index = record {
  index = index;
  timestamp = now;
  previous_hash = previous_hash;
  merkle_root = merkle_root;
  nonce = 0;
  difficulty = difficulty;
  is_epoch_block = is_epoch_block;
  epoch_index = epoch_index;
  state_root = [];
}

pub record Block : Type 0 where
  pub header : BlockHeader
  pub transaction_hashes : List Text
  pub hash : Text
  pub validator_signature : Text
  pub producer_address : Text
  pub block_reward : ℕ

unfoldable pub new : BlockHeader → List Text → Text → ℕ → Block
new header transaction_hashes producer_address block_reward = record {
  header = header;
  transaction_hashes = transaction_hashes;
  hash = [];
  validator_signature = [];
  producer_address = producer_address;
  block_reward = block_reward;
}

unfoldable pub height : Block → ℕ
height b = b.header.index
