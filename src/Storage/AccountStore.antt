-- ===== src/Storage/AccountStore.antt =====
-- src/storage/account_store.rs over the interface: balances, nonces and stakes of one account.
-- `save_account` and `get_account` themselves stand in AccountStore/Database.
pub mod Outcomes
pub mod Database
use kyvera_core.Prelude.{ℕ, ◌+◌, ◌-◌, ◌%◌, Option, none, some, Text, ok, leb, if◌then◌else◌}
use kyvera_core.Types.Account.{Account, new, u64_mod, update_validator_tier}
use kyvera_core.Storage.Exec.{
  Exec, continue, ◌>>=◌, ◌>>◌, pure, lift, require, checked_add, balance_overflow, staked_overflow,
  unstake_overflow, insufficient_balance, insufficient_stake,
}
use kyvera_core.Storage.Store.{Store, or_new}

module _ {S : Type 0} ⦃store : Store S⦄ where
  open store use {get_account, save_account}

  unfoldable pub get_or_create_account : Text → Exec S Account
  get_or_create_account address = do found ← get_account address; pure (or_new address found)

  unfoldable pub get_balance : Text → Exec S ℕ
  get_balance address = do
    found ← get_account address
    pure (elim found [ none ↦ 0 | some a ↦ a.balance ])

  unfoldable pub get_staked_balance : Text → Exec S ℕ
  get_staked_balance address = do
    found ← get_account address
    pure (elim found [ none ↦ 0 | some a ↦ a.staked_balance ])

  unfoldable pub get_nonce : Text → Exec S ℕ
  get_nonce address = do
    found ← get_account address
    pure (elim found [ none ↦ 0 | some a ↦ a.nonce ])

  unfoldable pub credit_account : Text → ℕ → Exec S (Unit {0})
  unfolding get_or_create_account
  credit_account address amount = do
    account ← get_or_create_account address
    balance ← lift (checked_add account.balance amount balance_overflow)
    save_account (record account { balance = balance })

  unfoldable pub debit_account : Text → ℕ → Exec S (Unit {0})
  unfolding get_or_create_account
  debit_account address amount = do
    account ← get_or_create_account address
    require (leb amount account.balance) (insufficient_balance account.balance amount)
    save_account (record account { balance = account.balance - amount })

  -- `nonce += 1` wraps in a release build.
  unfoldable pub increment_nonce : Text → Exec S (Unit {0})
  unfolding get_or_create_account
  increment_nonce address = do
    account ← get_or_create_account address
    save_account (record account { nonce = (account.nonce + 1) % u64_mod })

  unfoldable pub lock_stake : Text → ℕ → Exec S (Unit {0})
  unfolding get_or_create_account
  lock_stake address amount = do
    account ← get_or_create_account address
    require (leb amount account.balance) (insufficient_balance account.balance amount)
    staked ← lift (checked_add account.staked_balance amount staked_overflow)
    save_account (
        update_validator_tier
          (record account { balance = account.balance - amount; staked_balance = staked }))

  unfoldable pub unlock_stake : Text → ℕ → Exec S (Unit {0})
  unfolding get_or_create_account
  unlock_stake address amount = do
    account ← get_or_create_account address
    require (leb amount account.staked_balance) (insufficient_stake account.staked_balance amount)
    balance ← lift (checked_add account.balance amount unstake_overflow)
    save_account (
        update_validator_tier
          (record account { staked_balance = account.staked_balance - amount; balance = balance }))
