-- ===== src/Consensus/Staking.antt =====
-- src/consensus/staking.rs: withdrawals of stake that wait for the unbonding period.
pub mod Entries
pub mod Unbonding
pub mod Keys
pub mod Conserved
pub mod Requests
use kyvera_core.Prelude.{
  ℕ, ◌+◌, ◌-◌, ◌%◌, Bool, true, false, Option, none, some, List, [], ◌∷◌, ◌++◌, Text, Result, ok,
  err, codes, text_eq, leb, if◌then◌else◌,
}
use kyvera_core.Types.Account.{Account, u64_mod, update_validator_tier}
use kyvera_core.Storage.Exec.{
  Exec, Fault, continue, ◌>>=◌, ◌>>◌, pure, lift, require, no_account, insufficient_stake,
  io_failed, serialize_failed, deserialize_failed,
}
use kyvera_core.Storage.Db.{Sled, Codec, KyveraDb, or_fault, delete}
use kyvera_core.Storage.AccountStore.{credit_account}
use kyvera_core.Storage.AccountStore.Database.{db_store, get_account, save_account, set_metadata}
use kyvera_core.Storage.TxStore.{padded}
use kyvera_core.Consensus.Coinbase.{saturating_add}

abbrev pub unbonding_period_epochs : ℕ
unbonding_period_epochs = 10

abbrev pub pending_unstake_prefix : Text
pending_unstake_prefix = codes "pending_unstake:"

pub record PendingUnstake : Type 0 where
  pub address : Text
  pub amount : ℕ
  pub request_epoch : ℕ
  pub unlock_epoch : ℕ

-- The key of `save_pending_unstake`.
unfoldable pub pending_key : PendingUnstake → Text
pending_key pending =
    pending_unstake_prefix
    ++ (padded pending.unlock_epoch
        ++ (codes ":" ++ (pending.address ++ (codes ":" ++ padded pending.request_epoch))))

-- `found.ok_or_else(|| ..)?`
unfoldable pub required : Text → Option Account → Result Fault Account
required address none = err (no_account address)
required address (some account) = ok account

-- The record that `request_unstake` creates; the sum of the epochs wraps in a release build.
unfoldable pub new_pending : Text → ℕ → ℕ → PendingUnstake
new_pending address amount current_epoch = record {
  address = address;
  amount = amount;
  request_epoch = current_epoch;
  unlock_epoch = (current_epoch + unbonding_period_epochs) % u64_mod;
}

module _ ⦃sled : Sled⦄ where
  module _ ⦃pendings : Codec PendingUnstake⦄ where
    -- The loop of `get_pending_unstakes`.
    unfoldable pub collect_pending :
        Text → List (Option (Text × Text)) → Result Fault (List PendingUnstake)
    collect_pending address [] = ok []
    collect_pending address (none ∷ rest) = err io_failed
    collect_pending address (some (key, value) ∷ rest) =
        let others = collect_pending address rest in
        elim (pendings.from_slice value) [
          | none ↦ err deserialize_failed
          | some pending ↦ elim others [
            | err e ↦ err e
            | ok results ↦
                ok (if text_eq pending.address address then pending ∷ results else results)
          ]
        ]

    unfoldable pub get_pending_unstakes : Text → Exec (KyveraDb sled) (List PendingUnstake)
    unfolding collect_pending
    get_pending_unstakes address db =
        lift (collect_pending address (sled.scan_prefix db.metadata pending_unstake_prefix)) db

  module _ ⦃accounts : Codec Account⦄ ⦃pendings : Codec PendingUnstake⦄ where
    unfoldable pub save_pending_unstake : PendingUnstake → Exec (KyveraDb sled) (Unit {0})
    unfolding pending_key
    save_pending_unstake pending = do
      serialized ← lift (or_fault (pendings.to_vec pending) serialize_failed)
      set_metadata (pending_key pending) serialized

    unfoldable pub request_unstake : Text → ℕ → ℕ → Exec (KyveraDb sled) PendingUnstake
    unfolding required new_pending save_pending_unstake
    request_unstake address amount current_epoch = do
      found ← get_account address
      account ← lift (required address found)
      require (leb amount account.staked_balance) (insufficient_stake account.staked_balance amount)
      save_account (
          update_validator_tier
            (record account { staked_balance = account.staked_balance - amount }))
      save_pending_unstake (new_pending address amount current_epoch)
      pure (new_pending address amount current_epoch)

    -- The loop of `process_matured_unstakes` over the scan, with the total and the keys so far.
    unfoldable pub release_matured :
        ℕ → List (Option (Text × Text)) → ℕ → List Text → Exec (KyveraDb sled) (ℕ × List Text)
    release_matured current_epoch [] total keys = pure (total, keys)
    release_matured current_epoch (none ∷ rest) total keys = lift (err io_failed)
    release_matured current_epoch (some (key, value) ∷ rest) total keys = do
      pending ← lift (or_fault (pendings.from_slice value) deserialize_failed)
      let matured = leb pending.unlock_epoch current_epoch
      (if matured then credit_account pending.address pending.amount else pure tt)
      release_matured current_epoch rest
          (if matured then saturating_add total pending.amount else total)
          (if matured then keys ++ (key ∷ []) else keys)

    -- The loop that removes the processed entries.
    unfoldable pub remove_entries : List Text → Exec (KyveraDb sled) (Unit {0})
    unfolding delete
    remove_entries [] = pure tt
    remove_entries (key ∷ rest) = do
      λ db.
          (do tree ← lift (delete db.metadata key); λ db'. (ok tt, record db' { metadata = tree }))
            db
      remove_entries rest

    unfoldable pub process_matured_unstakes : ℕ → Exec (KyveraDb sled) ℕ
    unfolding release_matured remove_entries
    process_matured_unstakes current_epoch db =
        (do
          released ←
              release_matured current_epoch (sled.scan_prefix db.metadata pending_unstake_prefix) 0
                []
          remove_entries released.1
          pure released.0)
          db
