-- ===== src/Storage/StateTrie/Ledger/Progress.antt =====
-- Transactions that the sender can afford go through.
use kyvera_core.Prelude.{
  ℕ, ◌+◌, ◌/◌, ◌<◌, ◌≡◌, refl, true, List, Text, Result, ok, ltb, leb, ◌==◌, arith, Bool-cases, inl,
  inr,
}
use kyvera_core.Types.Account.{u64_mod, update_validator_tier}
use kyvera_core.Types.Transaction.{
  Transaction, TransactionType, transfer, stake_lock, stake_unlock, contract_deploy, contract_call,
}
use kyvera_core.Storage.Exec.{Fault}
use kyvera_core.Storage.Store.{Store}
use kyvera_core.Storage.Store.Laws.{
  Laws, holder, credited, supply, contains, distinct, funds-le-supply,
}
use kyvera_core.Storage.StateTrie.{treasury_address, apply_transaction}
use kyvera_core.Storage.StateTrie.Outcomes.{
  fee_taken, charged, transfer_received, transferred, apply_transfer_ok, locked, stake_locked,
  apply_stake_lock_ok, unlocked, stake_unlocked, apply_stake_unlock_ok, fee_paid, apply_fee_only_ok,
}
use kyvera_core.Storage.StateTrie.Supply.{supply_write, supply_credit}
use kyvera_core.Storage.StateTrie.Frame.{apply_as, apply_transaction-eq-apply_as}
use kyvera_core.Storage.StateTrie.Ledger.{affordable}

module _ {S : Type 0} ⦃store : Store S⦄ (laws : Laws store) (addresses : List Text)
    (once : distinct addresses ≡ true)
    (treasury_listed : contains addresses treasury_address ≡ true) where
  open laws use {Wf, saved, saved-Wf}

  -- The call returns without an error.
  abbrev pub Succeeds : Result Fault (Unit {0}) × S → Type 0
  Succeeds r = (s' : S) × (r ≡ (ok tt, s'))

  fee_taken-Succeeds :
      (fee : ℕ) (s : S)
      → supply laws addresses s + fee / 10 < u64_mod
      → Succeeds (fee_taken laws fee s)
  unfolding fee_taken
  fee_taken-Succeeds fee s room = elim (Bool-cases (ltb 0 (fee / 10))) [
    | inr little ↦ rw little (s, refl)
    | inl some_fee ↦
        let fits : ltb ((holder laws s treasury_address).balance + fee / 10) u64_mod ≡ true =
          ground (arith, funds-le-supply laws addresses s treasury_address treasury_listed, room) in
        rw (some_fee, fits) (saved (credited laws s treasury_address (fee / 10)) s, refl)
  ]

  module _ (tx : Transaction) (s : S) (wf : Wf s) (listed : contains addresses tx.sender ≡ true)
      (bounded : supply laws addresses s < u64_mod)
      (fresh : ((holder laws s tx.sender).nonce == tx.nonce) ≡ true) where
    -- What the sender pays leaves the sum of the listed funds.
    supply-charged :
        (cost : ℕ)
        → leb cost (holder laws s tx.sender).balance ≡ true
        → supply laws addresses (saved (charged laws s tx.sender cost) s) + cost
          ≡ supply laws addresses s
    supply-charged cost rich = ground (
      arith,
      rich,
      supply_write laws addresses once s tx.sender (charged laws s tx.sender cost) wf listed refl,
    )

    transfer_received-Succeeds :
        (s₁ : S)
        → Wf s₁
        → contains addresses tx.receiver ≡ true
        → supply laws addresses s₁ + (tx.amount + tx.fee) < u64_mod
        → Succeeds (transfer_received laws tx s₁)
    unfolding transfer_received
    transfer_received-Succeeds s₁ wf₁ receiver room =
        let fits : ltb ((holder laws s₁ tx.receiver).balance + tx.amount) u64_mod ≡ true =
          ground (arith, funds-le-supply laws addresses s₁ tx.receiver receiver, room) in
        rw fits (
          fee_taken-Succeeds tx.fee (saved (credited laws s₁ tx.receiver tx.amount) s₁) (
            omega (
              arith,
              room,
              supply_credit laws addresses once s₁ tx.receiver tx.amount wf₁ receiver,
            )))

    transferred-Succeeds :
        contains addresses tx.receiver ≡ true
        → leb (tx.amount + tx.fee) (holder laws s tx.sender).balance ≡ true
        → Succeeds (transferred laws tx s)
    unfolding transferred
    transferred-Succeeds receiver rich =
        let c = charged laws s tx.sender (tx.amount + tx.fee) in
        let fits : ltb (tx.amount + tx.fee) u64_mod ≡ true =
          ground (arith, funds-le-supply laws addresses s tx.sender listed, rich, bounded) in
        rw (fits, rich, fresh)
          (transfer_received-Succeeds (saved c s) (saved-Wf s c wf) receiver
            (omega (arith, bounded, supply-charged (tx.amount + tx.fee) rich)))

    stake_locked-Succeeds :
        leb (tx.amount + tx.fee) (holder laws s tx.sender).balance ≡ true
        → Succeeds (stake_locked laws tx s)
    unfolding stake_locked update_validator_tier
    stake_locked-Succeeds rich =
        let below = funds-le-supply laws addresses s tx.sender listed in
        let fits : ltb (tx.amount + tx.fee) u64_mod ≡ true = ground (arith, below, rich, bounded) in
        let room : ltb ((holder laws s tx.sender).staked_balance + tx.amount) u64_mod ≡ true =
          ground (arith, below, rich, bounded) in
        let written =
          supply_write laws addresses once s tx.sender (locked laws s tx) wf listed refl in
        rw (fits, rich, fresh, room)
          (fee_taken-Succeeds tx.fee (saved (locked laws s tx) s)
            (ground (arith, bounded, rich, written)))

    stake_unlocked-Succeeds :
        leb tx.amount (holder laws s tx.sender).staked_balance ≡ true
        → leb tx.fee (holder laws s tx.sender).balance ≡ true
        → Succeeds (stake_unlocked laws tx s)
    unfolding stake_unlocked update_validator_tier
    stake_unlocked-Succeeds staked rich =
        let below = funds-le-supply laws addresses s tx.sender listed in
        let room : ltb ((holder laws s tx.sender).balance + tx.amount) u64_mod ≡ true =
          ground (arith, below, staked, bounded) in
        let written =
          supply_write laws addresses once s tx.sender (unlocked laws s tx) wf listed refl in
        rw (staked, rich, fresh, room)
          (fee_taken-Succeeds tx.fee (saved (unlocked laws s tx) s)
            (ground (arith, bounded, staked, rich, written)))

    fee_paid-Succeeds :
        leb tx.fee (holder laws s tx.sender).balance ≡ true → Succeeds (fee_paid laws tx s)
    unfolding fee_paid
    fee_paid-Succeeds rich =
        rw (rich, fresh)
          (fee_taken-Succeeds tx.fee (saved (charged laws s tx.sender tx.fee) s)
            (omega (arith, bounded, supply-charged tx.fee rich)))

    apply_as-Succeeds :
        (kind : TransactionType)
        → contains addresses tx.receiver ≡ true
        → affordable kind tx (holder laws s tx.sender) ≡ true
        → Succeeds (apply_as kind tx s)
    unfolding affordable
    apply_as-Succeeds transfer receiver enough =
        rw (apply_transfer_ok laws tx s wf) (transferred-Succeeds receiver enough)
    apply_as-Succeeds stake_lock receiver enough =
        rw (apply_stake_lock_ok laws tx s wf) (stake_locked-Succeeds enough)
    apply_as-Succeeds stake_unlock receiver enough =
        rw (apply_stake_unlock_ok laws tx s wf)
          (stake_unlocked-Succeeds (ground (arith, enough)) (ground (arith, enough)))
    apply_as-Succeeds contract_deploy receiver enough =
        rw (apply_fee_only_ok laws tx s wf) (fee_paid-Succeeds enough)
    apply_as-Succeeds contract_call receiver enough =
        rw (apply_fee_only_ok laws tx s wf) (fee_paid-Succeeds enough)

  -- On a lawful store, for a list of distinct addresses with the sender, the receiver and the
  -- treasury among them whose funds sum to less than 2^64: a transaction of any type with the
  -- sender's nonce, that the sender can afford by the rule of its type, is applied successfully; no
  -- overflow and no later step stops it.
  pub apply_transaction-Succeeds :
      (tx : Transaction) (s : S)
      → Wf s
      → contains addresses tx.sender ≡ true
      → contains addresses tx.receiver ≡ true
      → supply laws addresses s < u64_mod
      → ((holder laws s tx.sender).nonce == tx.nonce) ≡ true
      → affordable tx.transaction_type tx (holder laws s tx.sender) ≡ true
      → (s' : S) × (apply_transaction tx s ≡ (ok tt, s'))
  apply_transaction-Succeeds tx s wf sender receiver bounded fresh enough =
      rw (apply_transaction-eq-apply_as laws tx s)
        (apply_as-Succeeds tx s wf sender bounded fresh tx.transaction_type receiver enough)
