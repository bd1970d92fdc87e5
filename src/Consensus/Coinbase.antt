-- ===== src/Consensus/Coinbase.antt =====
-- src/consensus/coinbase.rs: the coinbase transaction, its check, and the mined supply. The loop of
-- `calculate_mined_supply` runs on fuel for its steps and for the test that ends it.
pub mod Checked
pub mod MinedSupply
use kyvera_core.Prelude.{
  ℕ, zero, suc, ◌+◌, ◌-◌, ◌*◌, ◌/◌, ◌%◌, ◌^◌, min, Bool, ◌&&◌, Option, none, some, [], ◌++◌, Text,
  codes, decimal, text_eq, ltb, leb, ◌==◌, if◌then◌else◌, ok,
}
use kyvera_core.Prelude.Int.{ℤ}
use kyvera_core.Types.Account.{u64_mod}
use kyvera_core.Types.Transaction.{Transaction, transfer, new}
use kyvera_core.Chain.Hash.{Hasher, sha3_256_hex}
use kyvera_core.Chain.Mining.{calculate_block_reward}
use kyvera_core.Storage.Exec.{Exec, ◌>>=◌, ◌>>◌, continue, pure, require, not_coinbase}
use kyvera_core.Storage.Store.{Store}
use kyvera_core.Storage.AccountStore.{credit_account}

abbrev pub coinbase_sender : Text
coinbase_sender = codes "kyv10000000000000000000000000000000000000000000000000000coinbase0"

-- `u64::saturating_add` and `u64::saturating_mul`.
abbrev pub saturating_add : ℕ → ℕ → ℕ
saturating_add a b = min (a + b) (u64_mod - 1)

abbrev pub saturating_mul : ℕ → ℕ → ℕ
saturating_mul a b = min (a * b) (u64_mod - 1)

-- `format!("coinbase:{}:{}", block_hash, epoch_block_height)`.
unfoldable pub hash_input : Text → ℕ → Text
hash_input block_hash epoch_block_height =
    codes "coinbase:" ++ (block_hash ++ (codes ":" ++ decimal epoch_block_height))

module _ ⦃h : Hasher⦄ where
  unfoldable pub build_coinbase : ℤ → Text → ℕ → Text → Transaction
  unfolding new hash_input
  build_coinbase now miner_address epoch_block_height block_hash =
      let tx =
        new now coinbase_sender miner_address (calculate_block_reward epoch_block_height) 0
          epoch_block_height transfer [] in
      record tx {
        hash = sha3_256_hex (hash_input block_hash epoch_block_height);
        signature = codes "coinbase";
      }

  -- The four early returns, in order.
  unfoldable pub verify_coinbase : Transaction → ℕ → Text → Bool
  verify_coinbase coinbase epoch_block_height block_hash =
      text_eq coinbase.sender coinbase_sender
      && (coinbase.amount == calculate_block_reward epoch_block_height
          && (coinbase.nonce == epoch_block_height
              && text_eq coinbase.hash (sha3_256_hex (hash_input block_hash epoch_block_height))))

-- The product wraps as in a release build.
unfoldable pub calculate_validator_fee_share : ℕ → ℕ
calculate_validator_fee_share total_fees_collected = total_fees_collected * 40 % u64_mod / 100

module _ {S : Type 0} ⦃store : Store S⦄ where
  -- `if amount > 0 { credit_account(db, receiver, amount)?; }`
  unfoldable pub credit_positive : Text → ℕ → Exec S (Unit {0})
  credit_positive receiver amount = if ltb 0 amount then credit_account receiver amount else pure tt

  unfoldable pub apply_coinbase : Transaction → ℕ → Exec S (Unit {0})
  unfolding credit_positive
  apply_coinbase coinbase validator_fee_share = do
    require (text_eq coinbase.sender coinbase_sender) not_coinbase
    credit_positive coinbase.receiver coinbase.amount
    credit_positive coinbase.receiver validator_fee_share

-- `while height <= epoch_block_height`; `none` when the fuel is spent.
unfoldable pub add_rewards : ℕ → ℕ → ℕ → ℕ → Option ℕ
add_rewards zero epoch_block_height total height = none
add_rewards (suc fuel) epoch_block_height total height =
    let rest =
      add_rewards fuel epoch_block_height (saturating_add total (calculate_block_reward height))
        ((height + 1) % u64_mod) in
    if leb height epoch_block_height then rest else some total

unfoldable pub calculate_mined_supply : ℕ → Option ℕ
unfolding add_rewards
calculate_mined_supply epoch_block_height =
    add_rewards (epoch_block_height + 2) epoch_block_height 0 0
