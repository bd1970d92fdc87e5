-- ===== src/Storage/StateTrie/Supply.antt =====
-- What a transition does to the sum of all funds.
use kyvera_core.Prelude.{ℕ, ◌+◌, ◌/◌, ◌≡◌, refl, ap, ◌∙◌, true, List, arith, Text, ok}
use kyvera_core.Types.Account.{Account, update_validator_tier}
use kyvera_core.Types.Transaction.{Transaction}
use kyvera_core.Storage.Store.{Store}
use kyvera_core.Storage.Store.Laws.{
  Laws, holder, credited, supply, supply-saved, holder-address, contains, distinct,
}
use kyvera_core.Storage.StateTrie.{treasury_address, apply_transaction}
use kyvera_core.Storage.StateTrie.Outcomes.{
  fee_taken, charged, transferred, apply_transfer_ok, locked, stake_locked, apply_stake_lock_ok,
  unlocked, stake_unlocked, apply_stake_unlock_ok, fee_paid, apply_fee_only_ok,
}

module _ {S : Type 0} ⦃store : Store S⦄ (laws : Laws store) (addresses : List Text)
    (once : distinct addresses ≡ true) where
  open laws use {Wf, saved, saved-Wf}

  -- A write of a changed account at a listed address.
  pub supply_write :
      (s : S) (a : Text) (x : Account)
      → Wf s
      → contains addresses a ≡ true
      → x.address ≡ (holder laws s a).address
      → supply laws addresses (saved x s)
          + (holder laws s a).balance
          + (holder laws s a).staked_balance
        ≡ supply laws addresses s + x.balance + x.staked_balance
  supply_write s a x wf listed same =
      let e : x.address ≡ a = same ∙ holder-address laws s a wf in
      let listed' : contains addresses x.address ≡ true = rw e listed in
      omega (
        arith,
        supply-saved laws addresses s x wf once listed',
        ap (λ k. (holder laws s k).balance) e,
        ap (λ k. (holder laws s k).staked_balance) e,
      )

  -- A credit adds the amount.
  pub supply_credit :
      (s : S) (a : Text) (amount : ℕ)
      → Wf s
      → contains addresses a ≡ true
      → supply laws addresses (saved (credited laws s a amount) s)
        ≡ supply laws addresses s + amount
  supply_credit s a amount wf listed =
      omega (arith, supply_write s a (credited laws s a amount) wf listed refl)

  module _ (treasury_listed : contains addresses treasury_address ≡ true) where
    fee_taken-supply :
        (fee : ℕ) (s s' : S)
        → Wf s
        → fee_taken laws fee s ≡ (ok tt, s')
        → supply laws addresses s' ≡ supply laws addresses s + fee / 10
    unfolding fee_taken
    fee_taken-supply fee s s' wf e =
        ground (arith, supply_credit s treasury_address (fee / 10) wf treasury_listed)

    transferred-supply :
        (tx : Transaction) (s s' : S)
        → Wf s
        → contains addresses tx.sender ≡ true
        → contains addresses tx.receiver ≡ true
        → transferred laws tx s ≡ (ok tt, s')
        → supply laws addresses s' + tx.fee ≡ supply laws addresses s + tx.fee / 10
    unfolding transferred
    transferred-supply tx s s' wf from to e =
        let c : Account = charged laws s tx.sender (tx.amount + tx.fee) in
        let s₁ : S = saved c s in
        let r : Account = credited laws s₁ tx.receiver tx.amount in
        ground (
          arith,
          supply_write s tx.sender c wf from refl,
          supply_credit s₁ tx.receiver tx.amount (saved-Wf s c wf) to,
          fee_taken-supply tx.fee (saved r s₁) s' (saved-Wf s₁ r (saved-Wf s c wf)),
        )

    stake_locked-supply :
        (tx : Transaction) (s s' : S)
        → Wf s
        → contains addresses tx.sender ≡ true
        → stake_locked laws tx s ≡ (ok tt, s')
        → supply laws addresses s' + tx.fee ≡ supply laws addresses s + tx.fee / 10
    unfolding stake_locked update_validator_tier
    stake_locked-supply tx s s' wf from e = ground (
      arith,
      supply_write s tx.sender (locked laws s tx) wf from refl,
      fee_taken-supply tx.fee (saved (locked laws s tx) s) s' (saved-Wf s (locked laws s tx) wf),
    )

    stake_unlocked-supply :
        (tx : Transaction) (s s' : S)
        → Wf s
        → contains addresses tx.sender ≡ true
        → stake_unlocked laws tx s ≡ (ok tt, s')
        → supply laws addresses s' + tx.fee ≡ supply laws addresses s + tx.fee / 10
    unfolding stake_unlocked update_validator_tier
    stake_unlocked-supply tx s s' wf from e = ground (
      arith,
      supply_write s tx.sender (unlocked laws s tx) wf from refl,
      fee_taken-supply tx.fee (saved (unlocked laws s tx) s) s'
          (saved-Wf s (unlocked laws s tx) wf),
    )

    fee_paid-supply :
        (tx : Transaction) (s s' : S)
        → Wf s
        → contains addresses tx.sender ≡ true
        → fee_paid laws tx s ≡ (ok tt, s')
        → supply laws addresses s' + tx.fee ≡ supply laws addresses s + tx.fee / 10
    unfolding fee_paid
    fee_paid-supply tx s s' wf from e =
        let c : Account = charged laws s tx.sender tx.fee in
        ground (
          arith,
          supply_write s tx.sender c wf from refl,
          fee_taken-supply tx.fee (saved c s) s' (saved-Wf s c wf),
        )

    -- On a lawful store, for any list of distinct addresses with the sender, the receiver and the
    -- treasury among them: a transaction of any type that is applied successfully lowers the sum of
    -- all balances and stakes by the fee less the treasury's tenth, and by nothing else.
    pub apply_transaction-supply :
        (tx : Transaction) (s s' : S)
        → Wf s
        → contains addresses tx.sender ≡ true
        → contains addresses tx.receiver ≡ true
        → apply_transaction tx s ≡ (ok tt, s')
        → supply laws addresses s' + tx.fee ≡ supply laws addresses s + tx.fee / 10
    unfolding apply_transaction
    apply_transaction-supply tx s s' wf from to e = ground (
      arith,
      apply_transfer_ok laws tx s wf,
      apply_stake_lock_ok laws tx s wf,
      apply_stake_unlock_ok laws tx s wf,
      apply_fee_only_ok laws tx s wf,
      transferred-supply tx s s' wf from to,
      stake_locked-supply tx s s' wf from,
      stake_unlocked-supply tx s s' wf from,
      fee_paid-supply tx s s' wf from,
    )
