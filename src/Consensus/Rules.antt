-- ===== src/Consensus/Rules.antt =====
-- src/consensus/rules.rs: the rules that a received block must pass, in their order. The time of the
-- clock is an argument; the texts of the errors are their arguments.
pub mod Chained
pub mod History
pub mod Spending
use kyvera_core.Prelude.{
  ℕ, ◌+◌, ◌%◌, Bool, true, false, not, ◌&&◌, Option, none, some, List, [], ◌∷◌, map, Text, text_eq,
  ltb, leb, ◌==◌, if◌then◌else◌, length, Result, ok, err, ◌>>◌, ◌>>=◌, ensure,
}
use kyvera_core.Prelude.Int.{ℤ, pos, ltb_ℤ, leb_ℤ, ◌+ℤ◌, ◌-ℤ◌}
use kyvera_core.Types.Account.{Account, u64_mod}
use kyvera_core.Types.Transaction.{
  Transaction, transfer, stake_lock, stake_unlock, contract_deploy, contract_call,
}
use kyvera_core.Types.Block.{Block}
use kyvera_core.Chain.Hash.{Hasher, meets_difficulty}
use kyvera_core.Chain.Merkle.{compute_merkle_root}
use kyvera_core.Chain.Mining.{calculate_block_reward, hash_with_nonce}
use kyvera_core.Chain.BlockProducer.{ChainTip, zero_hash, hashes_of}
use kyvera_core.Storage.Store.{Store}
use kyvera_core.Storage.Store.Laws.{contains}
use kyvera_core.Consensus.Coinbase.{coinbase_sender, verify_coinbase, saturating_add}

abbrev pub max_clock_skew_ms : ℕ
max_clock_skew_ms = 120_000

abbrev pub min_micro_block_interval_ms : ℕ
min_micro_block_interval_ms = 500

abbrev pub min_epoch_block_interval_ms : ℕ
min_epoch_block_interval_ms = 60_000

abbrev pub max_transactions_per_micro_block : ℕ
max_transactions_per_micro_block = 1_000

abbrev pub max_micro_blocks_per_epoch : ℕ
max_micro_blocks_per_epoch = 10_000

-- Which of the three timestamp checks failed.
pub data TimestampReason : Type 0 where
  in_the_future not_after_previous too_soon : TimestampReason

pub data RuleViolation : Type 0 where
  invalid_height : ℕ → ℕ → RuleViolation
  invalid_previous_hash : Text → Text → RuleViolation
  invalid_hash : RuleViolation
  insufficient_proof_of_work : ℕ → Text → RuleViolation
  invalid_timestamp : TimestampReason → RuleViolation
  invalid_merkle_root : RuleViolation
  block_too_large : ℕ → ℕ → RuleViolation
  invalid_coinbase : RuleViolation
  duplicate_transaction : Text → RuleViolation
  invalid_transaction_nonce : ℕ → ℕ → RuleViolation
  insufficient_balance : Text → ℕ → ℕ → RuleViolation
  missing_coinbase unexpected_coinbase : RuleViolation
  invalid_epoch_index invalid_block_reward : ℕ → ℕ → RuleViolation
  invalid_state_root : RuleViolation

abbrev pub Verdict : Type 0
Verdict = Result RuleViolation (Unit {0})

unfoldable pub check_height : Block → ChainTip → Verdict
check_height block tip =
    ensure (block.header.index == (tip.height + 1) % u64_mod)
      (invalid_height ((tip.height + 1) % u64_mod) block.header.index)

unfoldable pub check_previous_hash : Block → ChainTip → Verdict
check_previous_hash block tip =
    ensure (text_eq block.header.previous_hash tip.hash)
      (invalid_previous_hash tip.hash block.header.previous_hash)

unfoldable pub check_previous_hash_genesis : Block → Verdict
check_previous_hash_genesis block =
    ensure (text_eq block.header.previous_hash zero_hash)
      (invalid_previous_hash zero_hash block.header.previous_hash)

unfoldable pub check_block_size : Block → List Transaction → Verdict
check_block_size block transactions =
    if block.header.is_epoch_block
    then ensure (leb (length block.transaction_hashes) max_micro_blocks_per_epoch)
        (block_too_large max_micro_blocks_per_epoch (length block.transaction_hashes))
    else ensure (leb (length transactions) max_transactions_per_micro_block)
        (block_too_large max_transactions_per_micro_block (length transactions))

unfoldable pub min_interval : Bool → ℕ
min_interval true = min_epoch_block_interval_ms
min_interval false = min_micro_block_interval_ms

unfoldable pub check_timestamp : ℤ → Block → ChainTip → Verdict
unfolding min_interval
check_timestamp now_ms block tip =
    let elapsed = block.header.timestamp -ℤ tip.timestamp in
    do
      ensure (not (ltb_ℤ (now_ms +ℤ pos max_clock_skew_ms) block.header.timestamp))
          (invalid_timestamp in_the_future)
      ensure (not (leb_ℤ block.header.timestamp tip.timestamp && ltb_ℤ (pos 0) tip.timestamp))
          (invalid_timestamp not_after_previous)
      ensure
          (not (
            ltb_ℤ (pos 0) tip.timestamp
            && ltb_ℤ elapsed (pos (min_interval block.header.is_epoch_block))))
          (invalid_timestamp too_soon)

unfoldable pub check_proof_of_work : Block → Verdict
check_proof_of_work block =
    ensure (meets_difficulty block.hash block.header.difficulty)
      (insufficient_proof_of_work block.header.difficulty block.hash)

unfoldable pub check_epoch_index : Block → ChainTip → Verdict
check_epoch_index block tip =
    ensure (block.header.epoch_index == (tip.epoch_index + 1) % u64_mod)
      (invalid_epoch_index ((tip.epoch_index + 1) % u64_mod) block.header.epoch_index)

unfoldable pub check_block_reward : Block → Verdict
check_block_reward block =
    ensure (block.block_reward == calculate_block_reward block.header.epoch_index)
      (invalid_block_reward (calculate_block_reward block.header.epoch_index) block.block_reward)

unfoldable pub check_no_coinbase : List Transaction → Verdict
check_no_coinbase [] = ok tt
check_no_coinbase (tx ∷ rest) =
    let later = check_no_coinbase rest in
    if text_eq tx.sender coinbase_sender then err unexpected_coinbase else later

unfoldable pub required_balance : Transaction → ℕ
required_balance tx = elim tx.transaction_type [
  | transfer ↦ saturating_add tx.amount tx.fee
  | stake_lock ↦ saturating_add tx.amount tx.fee
  | stake_unlock ↦ tx.fee
  | contract_deploy ↦ tx.fee
  | contract_call ↦ tx.fee
]

-- The checks of a sender whose account exists.
unfoldable pub check_account : Transaction → Account → Verdict
unfolding required_balance
check_account tx account = do
  ensure (leb (required_balance tx) account.balance)
      (insufficient_balance tx.sender (required_balance tx) account.balance)
  ensure (account.nonce == tx.nonce) (invalid_transaction_nonce account.nonce tx.nonce)

module _ {S : Type 0} ⦃store : Store S⦄ where
  open store use {get_account}

  unfoldable pub check_sender : Transaction → S → Verdict
  check_sender tx db = elim (get_account tx.sender db).0 [
    | err e ↦ err (insufficient_balance tx.sender 0 0)
    | ok none ↦ ok tt
    | ok (some account) ↦ check_account tx account
  ]

  -- The loop, with the hashes seen so far.
  unfoldable pub check_transactions_from : List Text → List Transaction → S → Verdict
  unfolding check_sender
  check_transactions_from seen [] db = ok tt
  check_transactions_from seen (tx ∷ rest) db =
      let skip = check_transactions_from seen rest db in
      let later = check_transactions_from (tx.hash ∷ seen) rest db in
      if text_eq tx.sender coinbase_sender
      then skip
      else if contains seen tx.hash
      then err (duplicate_transaction tx.hash)
      else check_sender tx db >> later

  unfoldable pub check_transactions : List Transaction → S → Verdict
  unfolding check_transactions_from
  check_transactions transactions db = check_transactions_from [] transactions db

module _ ⦃h : Hasher⦄ where
  unfoldable pub check_block_hash : Block → Verdict
  check_block_hash block =
      ensure (text_eq (hash_with_nonce block.header block.header.nonce) block.hash) invalid_hash

  unfoldable pub check_merkle_root : Block → List Transaction → Verdict
  check_merkle_root block transactions =
      ensure (text_eq (compute_merkle_root (hashes_of transactions)) block.header.merkle_root)
        invalid_merkle_root

  unfoldable pub check_coinbase : Block → List Transaction → Verdict
  check_coinbase block [] = err missing_coinbase
  check_coinbase block (coinbase ∷ rest) = do
    ensure (text_eq coinbase.sender coinbase_sender) missing_coinbase
    ensure (verify_coinbase coinbase block.header.epoch_index block.hash) invalid_coinbase

  -- The rules of epoch blocks and those of micro blocks.
  unfoldable pub check_kind : Block → List Transaction → ChainTip → Verdict
  unfolding check_coinbase check_no_coinbase
  check_kind block transactions chain_tip =
      let epoch : Verdict = (do
        check_epoch_index block chain_tip
        check_block_reward block
        check_coinbase block transactions) in
      if block.header.is_epoch_block then epoch else check_no_coinbase transactions

  unfoldable pub check_genesis : Block → List Transaction → Verdict
  check_genesis block transactions = do
    check_previous_hash_genesis block
    check_proof_of_work block
    check_block_hash block
    check_merkle_root block transactions

  unfoldable pub validate_block_rules :
      {S : Type 0} → ⦃store : Store S⦄ → ℤ → Block → List Transaction → ChainTip → S → Verdict
  unfolding check_kind check_genesis
  validate_block_rules now_ms block transactions chain_tip db =
      let rules : Verdict = (do
        check_height block chain_tip
        check_previous_hash block chain_tip
        check_block_size block transactions
        check_timestamp now_ms block chain_tip
        check_proof_of_work block
        check_block_hash block
        check_merkle_root block transactions
        check_kind block transactions chain_tip
        check_transactions transactions db) in
      if block.header.index == 0 then check_genesis block transactions else rules
