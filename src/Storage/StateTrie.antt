-- ===== src/Storage/StateTrie.antt =====
-- src/storage/state_trie.rs: the transition that a transaction makes, and snapshots with rollback.
-- `compute_state_root` stands in Storage/StateRoot, `save_snapshot` in Storage/SnapshotStack.
pub mod Outcomes
pub mod Supply
pub mod Errors
pub mod Nonces
pub mod Frame
pub mod Rollback
pub mod Ledger
use kyvera_core.Prelude.{
  ℕ, ◌+◌, ◌-◌, ◌/◌, ◌%◌, Option, none, some, List, [], ◌∷◌, Text, codes, is_utf8, ok, leb, ltb,
  ◌==◌, if◌then◌else◌,
}
use kyvera_core.Types.Account.{Account, u64_mod, update_validator_tier}
use kyvera_core.Types.Transaction.{
  Transaction, transfer, stake_lock, stake_unlock, contract_deploy, contract_call,
}
use kyvera_core.Chain.Hash.{Hasher, sha3_256_hex}
use kyvera_core.Storage.Exec.{
  Exec, continue, ◌>>=◌, ◌>>◌, pure, lift, require, checked_add, cost_overflow, stake_cost_overflow,
  receiver_overflow, staked_overflow, unstake_overflow, insufficient_balance, insufficient_stake,
  insufficient_fee, nonce_mismatch, bad_text,
}
use kyvera_core.Storage.Store.{Store}
use kyvera_core.Storage.AccountStore.{get_or_create_account, credit_account}

-- The treasury's address, which `apply_fee_split` spells out.
abbrev pub treasury_address : Text
treasury_address = codes "kyv10000000000000000000000000000000000000000000000000000treasury00"

abbrev pub state_root_key : Text
state_root_key = codes "state_root"

pub record StateSnapshot : Type 0 where
  pub block_height : ℕ
  pub state_root : Text
  pub modified_accounts : List (Text × Option Account)

-- `String::from_utf8(bytes)` of the bytes found, if any.
unfoldable pub checked_text : {S : Type 0} → Option Text → Exec S (Option Text)
checked_text none = pure none
checked_text (some bytes) = do require (is_utf8 bytes) bad_text; pure (some bytes)

module _ {S : Type 0} ⦃store : Store S⦄ where
  open store use {get_account, save_account, delete_account, get_metadata, set_metadata}

  unfoldable pub apply_fee_split : ℕ → Exec S (Unit {0})
  apply_fee_split fee =
      let treasury_share = fee / 10 in
      if ltb 0 treasury_share then credit_account treasury_address treasury_share else pure tt

  unfoldable pub apply_transfer : Transaction → Exec S (Unit {0})
  apply_transfer tx = do
    sender ← get_or_create_account tx.sender
    total_cost ← lift (checked_add tx.amount tx.fee cost_overflow)
    require (leb total_cost sender.balance) (insufficient_balance sender.balance total_cost)
    require (sender.nonce == tx.nonce) (nonce_mismatch sender.nonce tx.nonce)
    save_account (record sender {
      balance = sender.balance - total_cost;
      nonce = (sender.nonce + 1) % u64_mod;
    })
    receiver ← get_or_create_account tx.receiver
    balance ← lift (checked_add receiver.balance tx.amount receiver_overflow)
    save_account (record receiver { balance = balance })
    apply_fee_split tx.fee

  unfoldable pub apply_stake_lock : Transaction → Exec S (Unit {0})
  apply_stake_lock tx = do
    account ← get_or_create_account tx.sender
    total_cost ← lift (checked_add tx.amount tx.fee stake_cost_overflow)
    require (leb total_cost account.balance) (insufficient_balance account.balance total_cost)
    require (account.nonce == tx.nonce) (nonce_mismatch account.nonce tx.nonce)
    staked ← lift (checked_add account.staked_balance tx.amount staked_overflow)
    save_account (
        update_validator_tier (record account {
          balance = account.balance - total_cost;
          staked_balance = staked;
          nonce = (account.nonce + 1) % u64_mod;
        }))
    apply_fee_split tx.fee

  unfoldable pub apply_stake_unlock : Transaction → Exec S (Unit {0})
  apply_stake_unlock tx = do
    account ← get_or_create_account tx.sender
    require (leb tx.amount account.staked_balance)
        (insufficient_stake account.staked_balance tx.amount)
    require (leb tx.fee account.balance) (insufficient_fee account.balance tx.fee)
    require (account.nonce == tx.nonce) (nonce_mismatch account.nonce tx.nonce)
    balance ← lift (checked_add account.balance tx.amount unstake_overflow)
    save_account (
        update_validator_tier (record account {
          staked_balance = account.staked_balance - tx.amount;
          balance = balance - tx.fee;
          nonce = (account.nonce + 1) % u64_mod;
        }))
    apply_fee_split tx.fee

  unfoldable pub apply_fee_only : Transaction → Exec S (Unit {0})
  apply_fee_only tx = do
    sender ← get_or_create_account tx.sender
    require (leb tx.fee sender.balance) (insufficient_fee sender.balance tx.fee)
    require (sender.nonce == tx.nonce) (nonce_mismatch sender.nonce tx.nonce)
    save_account
        (record sender { balance = sender.balance - tx.fee; nonce = (sender.nonce + 1) % u64_mod })
    apply_fee_split tx.fee

  unfoldable pub apply_transaction : Transaction → Exec S (Unit {0})
  apply_transaction tx = elim tx.transaction_type [
    | transfer ↦ apply_transfer tx
    | stake_lock ↦ apply_stake_lock tx
    | stake_unlock ↦ apply_stake_unlock tx
    | contract_deploy ↦ apply_fee_only tx
    | contract_call ↦ apply_fee_only tx
  ]

  unfoldable pub save_state_root : Text → Exec S (Unit {0})
  save_state_root root = set_metadata state_root_key root

  unfoldable pub load_state_root : Exec S (Option Text)
  load_state_root = do found ← get_metadata state_root_key; checked_text found

  -- The loop of `take_snapshot`.
  unfoldable pub read_accounts : List Text → Exec S (List (Text × Option Account))
  read_accounts [] = pure []
  read_accounts (address ∷ rest) = do
    account ← get_account address
    accounts ← read_accounts rest
    pure ((address, account) ∷ accounts)

  unfoldable pub take_snapshot : ⦃h : Hasher⦄ → ℕ → List Text → Exec S StateSnapshot
  unfolding load_state_root
  take_snapshot ⦃h⦄ block_height affected_addresses = do
    found ← load_state_root
    modified ← read_accounts affected_addresses
    pure (record {
      block_height = block_height;
      state_root = elim found [
        | none ↦ sha3_256_hex ⦃h = h⦄ (codes "kyvera-empty-state")
        | some r ↦ r
      ];
      modified_accounts = modified;
    })

  -- The loop of `rollback_to_snapshot`.
  unfoldable pub restore_accounts : List (Text × Option Account) → Exec S (Unit {0})
  restore_accounts [] = pure tt
  restore_accounts ((address, some account) ∷ rest) = do save_account account; restore_accounts rest
  restore_accounts ((address, none) ∷ rest) = do delete_account address; restore_accounts rest

  unfoldable pub rollback_to_snapshot : StateSnapshot → Exec S (Unit {0})
  unfolding save_state_root
  rollback_to_snapshot snapshot = do
    restore_accounts snapshot.modified_accounts
    save_state_root snapshot.state_root
