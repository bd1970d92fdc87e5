-- ===== src/Storage/StateTrie/Outcomes.antt =====
-- What each transition does to a lawful store, on every branch, as one expression.
use kyvera_core.Prelude.{
  ◌+◌, ◌-◌, ◌/◌, ◌%◌, ◌≡◌, ℕ, Text, arith, ok, err, Result, leb, ltb, ◌==◌, if◌then◌else◌,
}
use kyvera_core.Types.Account.{Account, u64_mod, update_validator_tier}
use kyvera_core.Types.Transaction.{Transaction}
use kyvera_core.Storage.Exec.{
  Fault, balance_overflow, cost_overflow, receiver_overflow, stake_cost_overflow, staked_overflow,
  unstake_overflow, insufficient_balance, insufficient_stake, insufficient_fee, nonce_mismatch,
}
use kyvera_core.Storage.Store.{Store}
use kyvera_core.Storage.Store.Laws.{Laws, holder, credited}
use kyvera_core.Storage.AccountStore.Outcomes.{get_or_create_account_ok, credit_account_ok}
use kyvera_core.Storage.StateTrie.{
  treasury_address, apply_fee_split, apply_transfer, apply_stake_lock, apply_stake_unlock,
  apply_fee_only,
}

module _ {S : Type 0} ⦃store : Store S⦄ (laws : Laws store) where
  open laws use {Wf, saved, saved-Wf, save_account_ok}

  -- The state after a tenth of the fee went to the treasury.
  unfoldable pub fee_taken : ℕ → S → Result Fault (Unit {0}) × S
  fee_taken fee s =
      if ltb 0 (fee / 10)
      then (if ltb ((holder laws s treasury_address).balance + fee / 10) u64_mod
          then (ok tt, saved (credited laws s treasury_address (fee / 10)) s)
          else (err balance_overflow, s))
      else (ok tt, s)

  pub apply_fee_split_ok : (fee : ℕ) (s : S) → Wf s → apply_fee_split fee s ≡ fee_taken fee s
  unfolding apply_fee_split fee_taken
  apply_fee_split_ok fee s wf =
      ground (arith, credit_account_ok laws s wf treasury_address (fee / 10))

  -- The sender of a transfer, once charged.
  abbrev pub charged : S → Text → ℕ → Account
  charged s sender cost = record (holder laws s sender) {
    balance = (holder laws s sender).balance - cost;
    nonce = ((holder laws s sender).nonce + 1) % u64_mod;
  }

  -- The second half of a transfer, from the state in which the sender is charged.
  unfoldable pub transfer_received : Transaction → S → Result Fault (Unit {0}) × S
  unfolding fee_taken
  transfer_received tx s =
      if ltb ((holder laws s tx.receiver).balance + tx.amount) u64_mod
      then fee_taken tx.fee (saved (credited laws s tx.receiver tx.amount) s)
      else (err receiver_overflow, s)

  unfoldable pub transferred : Transaction → S → Result Fault (Unit {0}) × S
  unfolding transfer_received
  transferred tx s =
      let sender = holder laws s tx.sender in
      let cost = tx.amount + tx.fee in
      if ltb cost u64_mod
      then (if leb cost sender.balance
          then (if sender.nonce == tx.nonce
              then transfer_received tx (saved (charged s tx.sender cost) s)
              else (err (nonce_mismatch sender.nonce tx.nonce), s))
          else (err (insufficient_balance sender.balance cost), s))
      else (err cost_overflow, s)

  pub apply_transfer_ok : (tx : Transaction) (s : S) → Wf s → apply_transfer tx s ≡ transferred tx s
  unfolding apply_transfer transferred
  apply_transfer_ok tx s wf =
      let cost : ℕ = tx.amount + tx.fee in
      let s₁ : S = saved (charged s tx.sender cost) s in
      let w₁ : Wf s₁ = saved-Wf s (charged s tx.sender cost) wf in
      let r : Account = credited laws s₁ tx.receiver tx.amount in
      rw (get_or_create_account_ok laws s wf tx.sender) (
        ground (
          arith,
          save_account_ok s (charged s tx.sender cost) wf,
          get_or_create_account_ok laws s₁ w₁ tx.receiver,
          save_account_ok s₁ r w₁,
          apply_fee_split_ok tx.fee (saved r s₁) (saved-Wf s₁ r w₁),
        ))

  -- The sender of a stake, with the amount moved from the balance to the stake.
  abbrev pub locked : S → Transaction → Account
  locked s tx = update_validator_tier (record (holder laws s tx.sender) {
    balance = (holder laws s tx.sender).balance - (tx.amount + tx.fee);
    staked_balance = (holder laws s tx.sender).staked_balance + tx.amount;
    nonce = ((holder laws s tx.sender).nonce + 1) % u64_mod;
  })

  unfoldable pub stake_locked : Transaction → S → Result Fault (Unit {0}) × S
  unfolding fee_taken
  stake_locked tx s =
      let account = holder laws s tx.sender in
      let cost = tx.amount + tx.fee in
      if ltb cost u64_mod
      then (if leb cost account.balance
          then (if account.nonce == tx.nonce
              then (if ltb (account.staked_balance + tx.amount) u64_mod
                  then fee_taken tx.fee (saved (locked s tx) s)
                  else (err staked_overflow, s))
              else (err (nonce_mismatch account.nonce tx.nonce), s))
          else (err (insufficient_balance account.balance cost), s))
      else (err stake_cost_overflow, s)

  pub apply_stake_lock_ok :
      (tx : Transaction) (s : S) → Wf s → apply_stake_lock tx s ≡ stake_locked tx s
  unfolding apply_stake_lock stake_locked
  apply_stake_lock_ok tx s wf = rw (get_or_create_account_ok laws s wf tx.sender) (
      ground (
        arith,
        save_account_ok s (locked s tx) wf,
        apply_fee_split_ok tx.fee (saved (locked s tx) s) (saved-Wf s (locked s tx) wf),
      ))

  -- The sender of an unlock, with the amount moved back to the balance.
  abbrev pub unlocked : S → Transaction → Account
  unlocked s tx = update_validator_tier (record (holder laws s tx.sender) {
    staked_balance = (holder laws s tx.sender).staked_balance - tx.amount;
    balance = (holder laws s tx.sender).balance + tx.amount - tx.fee;
    nonce = ((holder laws s tx.sender).nonce + 1) % u64_mod;
  })

  unfoldable pub stake_unlocked : Transaction → S → Result Fault (Unit {0}) × S
  unfolding fee_taken
  stake_unlocked tx s =
      let account = holder laws s tx.sender in
      if leb tx.amount account.staked_balance
      then (if leb tx.fee account.balance
          then (if account.nonce == tx.nonce
              then (if ltb (account.balance + tx.amount) u64_mod
                  then fee_taken tx.fee (saved (unlocked s tx) s)
                  else (err unstake_overflow, s))
              else (err (nonce_mismatch account.nonce tx.nonce), s))
          else (err (insufficient_fee account.balance tx.fee), s))
      else (err (insufficient_stake account.staked_balance tx.amount), s)

  pub apply_stake_unlock_ok :
      (tx : Transaction) (s : S) → Wf s → apply_stake_unlock tx s ≡ stake_unlocked tx s
  unfolding apply_stake_unlock stake_unlocked
  apply_stake_unlock_ok tx s wf = rw (get_or_create_account_ok laws s wf tx.sender) (
      ground (
        arith,
        save_account_ok s (unlocked s tx) wf,
        apply_fee_split_ok tx.fee (saved (unlocked s tx) s) (saved-Wf s (unlocked s tx) wf),
      ))

  unfoldable pub fee_paid : Transaction → S → Result Fault (Unit {0}) × S
  unfolding fee_taken
  fee_paid tx s =
      let sender = holder laws s tx.sender in
      if leb tx.fee sender.balance
      then (if sender.nonce == tx.nonce
          then fee_taken tx.fee (saved (charged s tx.sender tx.fee) s)
          else (err (nonce_mismatch sender.nonce tx.nonce), s))
      else (err (insufficient_fee sender.balance tx.fee), s)

  pub apply_fee_only_ok : (tx : Transaction) (s : S) → Wf s → apply_fee_only tx s ≡ fee_paid tx s
  unfolding apply_fee_only fee_paid
  apply_fee_only_ok tx s wf = rw (get_or_create_account_ok laws s wf tx.sender) (
      ground (
        arith,
        save_account_ok s (charged s tx.sender tx.fee) wf,
        apply_fee_split_ok tx.fee (saved (charged s tx.sender tx.fee) s)
            (saved-Wf s (charged s tx.sender tx.fee) wf),
      ))
