-- ===== src/Storage/StateTrie/Errors.antt =====
-- The store after a transition that returns an error.
use kyvera_core.Prelude.{
  ℕ, ◌+◌, ◌/◌, ◌≤◌, ◌<◌, ◌≡◌, ◌≢◌, refl, ap, ◌∙◌, true, false, List, arith, Text, text_eq, err,
}
use kyvera_core.Types.Account.{Account, u64_mod, update_validator_tier}
use kyvera_core.Types.Transaction.{Transaction, transfer}
use kyvera_core.Storage.Exec.{Fault, receiver_overflow}
use kyvera_core.Storage.Store.{Store}
use kyvera_core.Storage.Store.Laws.{
  Laws, holder, credited, supply, funds-le-supply, holder-address, holder-saved, contains, distinct,
}
use kyvera_core.Storage.StateTrie.{treasury_address, apply_transaction, apply_transfer}
use kyvera_core.Storage.StateTrie.Outcomes.{
  fee_taken, charged, transferred, apply_transfer_ok, locked, stake_locked, apply_stake_lock_ok,
  unlocked, stake_unlocked, apply_stake_unlock_ok, fee_paid, apply_fee_only_ok,
}
use kyvera_core.Storage.StateTrie.Supply.{supply_write, supply_credit}

module _ {S : Type 0} ⦃store : Store S⦄ (laws : Laws store) (addresses : List Text)
    (once : distinct addresses ≡ true)
    (treasury_listed : contains addresses treasury_address ≡ true) where
  open laws use {Wf, saved, saved-Wf}

  -- With room in the sum, the treasury's share always finds room.
  fee_taken_total :
      (fee : ℕ) (s s' : S) (e : Fault)
      → supply laws addresses s + fee / 10 < u64_mod
      → fee_taken laws fee s ≢ (err e, s')
  unfolding fee_taken
  fee_taken_total fee s s' e room =
      ground (arith, funds-le-supply laws addresses s treasury_address treasury_listed)

  transferred_atomic :
      (tx : Transaction) (s s' : S) (e : Fault)
      → Wf s
      → supply laws addresses s < u64_mod
      → contains addresses tx.sender ≡ true
      → contains addresses tx.receiver ≡ true
      → transferred laws tx s ≡ (err e, s')
      → s' ≡ s
  unfolding transferred
  transferred_atomic tx s s' e wf room from to h =
      let c : Account = charged laws s tx.sender (tx.amount + tx.fee) in
      let s₁ : S = saved c s in
      let r : Account = credited laws s₁ tx.receiver tx.amount in
      ground (
        arith,
        supply_write laws addresses once s tx.sender c wf from refl,
        supply_credit laws addresses once s₁ tx.receiver tx.amount (saved-Wf s c wf) to,
        funds-le-supply laws addresses s₁ tx.receiver to,
        fee_taken_total tx.fee (saved r s₁) s' e,
      )

  stake_locked_atomic :
      (tx : Transaction) (s s' : S) (e : Fault)
      → Wf s
      → supply laws addresses s < u64_mod
      → contains addresses tx.sender ≡ true
      → stake_locked laws tx s ≡ (err e, s')
      → s' ≡ s
  unfolding stake_locked update_validator_tier
  stake_locked_atomic tx s s' e wf room from h = ground (
    arith,
    supply_write laws addresses once s tx.sender (locked laws s tx) wf from refl,
    fee_taken_total tx.fee (saved (locked laws s tx) s) s' e,
  )

  stake_unlocked_atomic :
      (tx : Transaction) (s s' : S) (e : Fault)
      → Wf s
      → supply laws addresses s < u64_mod
      → contains addresses tx.sender ≡ true
      → stake_unlocked laws tx s ≡ (err e, s')
      → s' ≡ s
  unfolding stake_unlocked update_validator_tier
  stake_unlocked_atomic tx s s' e wf room from h = ground (
    arith,
    supply_write laws addresses once s tx.sender (unlocked laws s tx) wf from refl,
    fee_taken_total tx.fee (saved (unlocked laws s tx) s) s' e,
  )

  fee_paid_atomic :
      (tx : Transaction) (s s' : S) (e : Fault)
      → Wf s
      → supply laws addresses s < u64_mod
      → contains addresses tx.sender ≡ true
      → fee_paid laws tx s ≡ (err e, s')
      → s' ≡ s
  unfolding fee_paid
  fee_paid_atomic tx s s' e wf room from h =
      let c : Account = charged laws s tx.sender tx.fee in
      ground (
        arith,
        supply_write laws addresses once s tx.sender c wf from refl,
        fee_taken_total tx.fee (saved c s) s' e,
      )

  -- On a lawful store, if the funds of a list of distinct addresses with the sender, the receiver
  -- and the treasury among them sum to less than 2^64: a transaction of any type whose application
  -- returns an error leaves the store exactly as it was.
  pub apply_transaction_atomic :
      (tx : Transaction) (s s' : S) (e : Fault)
      → Wf s
      → supply laws addresses s < u64_mod
      → contains addresses tx.sender ≡ true
      → contains addresses tx.receiver ≡ true
      → apply_transaction tx s ≡ (err e, s')
      → s' ≡ s
  unfolding apply_transaction
  apply_transaction_atomic tx s s' e wf room from to h = ground (
    arith,
    apply_transfer_ok laws tx s wf,
    apply_stake_lock_ok laws tx s wf,
    apply_stake_unlock_ok laws tx s wf,
    apply_fee_only_ok laws tx s wf,
    transferred_atomic tx s s' e wf room from to,
    stake_locked_atomic tx s s' e wf room from,
    stake_unlocked_atomic tx s s' e wf room from,
    fee_paid_atomic tx s s' e wf room from,
  )

module _ {S : Type 0} ⦃store : Store S⦄ (laws : Laws store) where
  open laws use {Wf, saved, saved-Wf}

  apply_transfer_overflow :
      (tx : Transaction) (s : S)
      → Wf s
      → tx.amount + tx.fee < u64_mod
      → tx.amount + tx.fee ≤ (holder laws s tx.sender).balance
      → (holder laws s tx.sender).nonce ≡ tx.nonce
      → text_eq tx.sender tx.receiver ≡ false
      → u64_mod ≤ (holder laws s tx.receiver).balance + tx.amount
      → apply_transfer tx s
        ≡ (err receiver_overflow, saved (charged laws s tx.sender (tx.amount + tx.fee)) s)
  unfolding transferred
  apply_transfer_overflow tx s wf small rich fresh apart full =
      apply_transfer_ok laws tx s wf ∙ overflow
    where
      c : Account
      c = charged laws s tx.sender (tx.amount + tx.fee)

      elsewhere : text_eq c.address tx.receiver ≡ false
      elsewhere = rw (holder-address laws s tx.sender wf) apart

      kept : holder laws (saved c s) tx.receiver ≡ holder laws s tx.receiver
      kept = rw (holder-saved laws s c tx.receiver wf, elsewhere)

      overflow : transferred laws tx s ≡ (err receiver_overflow, saved c s)
      overflow = ground (arith, ap (λ h. Account.balance h) kept)

  -- On a lawful store, for a list of distinct addresses with the sender among them: a transfer that
  -- the sender can pay, with the sender's nonce, to another address whose balance has no room for
  -- the amount, returns the overflow error, and afterwards the funds of the listed addresses are
  -- lower by the amount and the fee.
  pub apply_transaction_overflow :
      (addresses : List Text) (tx : Transaction) (s : S)
      → distinct addresses ≡ true
      → contains addresses tx.sender ≡ true
      → Wf s
      → tx.transaction_type ≡ transfer
      → tx.amount + tx.fee < u64_mod
      → tx.amount + tx.fee ≤ (holder laws s tx.sender).balance
      → (holder laws s tx.sender).nonce ≡ tx.nonce
      → text_eq tx.sender tx.receiver ≡ false
      → u64_mod ≤ (holder laws s tx.receiver).balance + tx.amount
      → (s' : S) × (apply_transaction tx s ≡ (err receiver_overflow, s'))
        × (supply laws addresses s' + (tx.amount + tx.fee) ≡ supply laws addresses s)
  unfolding apply_transaction apply_transfer
  apply_transaction_overflow addresses tx s once listed wf kind small rich fresh apart full =
      let c : Account = charged laws s tx.sender (tx.amount + tx.fee) in
      (
        saved c s,
        rw kind (apply_transfer_overflow tx s wf small rich fresh apart full),
        omega (arith, rich, supply_write laws addresses once s tx.sender c wf listed refl),
      )
