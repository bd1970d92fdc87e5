-- ===== src/Storage/StateTrie/Ledger/Refinement.antt =====
-- `apply_transaction` implements the abstract ledger.
use kyvera_core.Prelude.{
  ℕ, ◌+◌, ◌/◌, ◌≡◌, refl, sym, ap, ◌∙◌, Bool, true, false, ◌&&◌, Option, none, some, Result, ok,
  err, ltb, leb, ◌==◌, if◌then◌else◌, arith, Bool-cases, inl, inr,
}
use kyvera_core.Types.Account.{Account, u64_mod, update_validator_tier}
use kyvera_core.Types.Transaction.{
  Transaction, TransactionType, transfer, stake_lock, stake_unlock, contract_deploy, contract_call,
}
use kyvera_core.Storage.Exec.{Fault}
use kyvera_core.Storage.Store.{Store}
use kyvera_core.Storage.Store.Laws.{Laws, holder, credited, holder-saved}
use kyvera_core.Storage.StateTrie.{treasury_address, apply_transaction}
use kyvera_core.Storage.StateTrie.Outcomes.{
  fee_taken, charged, transfer_received, transferred, apply_transfer_ok, locked, stake_locked,
  apply_stake_lock_ok, unlocked, stake_unlocked, apply_stake_unlock_ok, fee_paid, apply_fee_only_ok,
}
use kyvera_core.Storage.StateTrie.Frame.{apply_as, apply_transaction-eq-apply_as}
use kyvera_core.Storage.StateTrie.Ledger.{
  Ledger, set, give, after, collect, affordable, fits, spent, received, accepts, effect,
}

module _ {S : Type 0} ⦃store : Store S⦄ (laws : Laws store) where
  open laws use {Wf, saved, saved-Wf}

  -- The ledger that a state stands for, and that of an outcome: none when the call fails.
  abbrev pub view : S → Ledger
  view s a = holder laws s a

  abbrev pub outcome : Result Fault (Unit {0}) × S → Option Ledger
  outcome (ok u, s) = some (view s)
  outcome (err e, s) = none

  view-saved : (s : S) (x : Account) → Wf s → view (saved x s) ≡ set x (view s)
  view-saved s x wf i a = holder-saved laws s x a wf i

  outcome-fee_taken :
      (fee : ℕ) (s : S) → Wf s → outcome (fee_taken laws fee s) ≡ collect fee (view s)
  unfolding fee_taken collect give
  outcome-fee_taken fee s wf =
      ground (arith, view-saved s (credited laws s treasury_address (fee / 10)) wf)

  outcome-transfer_received :
      (tx : Transaction) (s : S)
      → Wf s
      → outcome (transfer_received laws tx s)
        ≡ after (received transfer tx (view s)) (collect tx.fee)
  unfolding transfer_received received give
  outcome-transfer_received tx s wf =
      let r = credited laws s tx.receiver tx.amount in
      elim (Bool-cases (ltb ((holder laws s tx.receiver).balance + tx.amount) u64_mod)) [
        | inl room ↦ rw room (
            outcome-fee_taken tx.fee (saved r s) (saved-Wf s r wf)
            ∙ ap (collect tx.fee) (view-saved s r wf))
        | inr full ↦ rw full
      ]

  effect_refused :
      (kind : TransactionType) (tx : Transaction) (s : S)
      → accepts kind tx (holder laws s tx.sender) ≡ false
      → none ≡ effect kind tx (view s)
  unfolding effect
  effect_refused kind tx s refusal = rw refusal

  -- An accepted transaction other than a transfer, from the state after the write of the sender.
  effect_accepted :
      (kind : TransactionType) (tx : Transaction) (s : S) (x : Account)
      → Wf s
      → accepts kind tx (holder laws s tx.sender) ≡ true
      → x ≡ spent kind tx (holder laws s tx.sender)
      → after (received kind tx (view (saved x s))) (collect tx.fee) ≡ effect kind tx (view s)
  unfolding effect
  effect_accepted kind tx s x wf fine same = rw fine (
      ap (λ ledger. after (received kind tx ledger) (collect tx.fee))
        (view-saved s x wf ∙ ap (λ y. set y (view s)) same))

  -- Both branches of a guard.
  guarded :
      (b : Bool) (p q : Result Fault (Unit {0}) × S) (goal : Option Ledger)
      → (b ≡ true → outcome p ≡ goal)
      → (b ≡ false → outcome q ≡ goal)
      → outcome (if b then p else q) ≡ goal
  guarded true p q goal f g = f refl
  guarded false p q goal f g = g refl

  outcome-transferred :
      (tx : Transaction) (s : S)
      → Wf s
      → outcome (transferred laws tx s) ≡ effect transfer tx (view s)
  unfolding transferred accepts affordable fits
  outcome-transferred tx s wf =
      let x = holder laws s tx.sender in
      let c = charged laws s tx.sender (tx.amount + tx.fee) in
      guarded (ltb (tx.amount + tx.fee) u64_mod) _ _ _
        (λ fit.
          guarded (leb (tx.amount + tx.fee) x.balance) _ _ _
            (λ rich.
              guarded (x.nonce == tx.nonce) _ _ _
                (λ fresh.
                  outcome-transfer_received tx (saved c s) (saved-Wf s c wf)
                  ∙ effect_accepted transfer tx s c wf (ground (arith, fit, rich, fresh))
                      (unfold spent in refl))
                (λ stale. effect_refused transfer tx s (ground (arith, stale))))
            (λ poor. effect_refused transfer tx s (ground (arith, poor))))
        (λ over. effect_refused transfer tx s (ground (arith, over)))

  -- The end of the other kinds: the fee after the write of the sender.
  outcome-accepted :
      (kind : TransactionType) (tx : Transaction) (s : S) (x : Account)
      → Wf s
      → ((ledger : Ledger) → received kind tx ledger ≡ some ledger)
      → accepts kind tx (holder laws s tx.sender) ≡ true
      → x ≡ spent kind tx (holder laws s tx.sender)
      → outcome (fee_taken laws tx.fee (saved x s)) ≡ effect kind tx (view s)
  outcome-accepted kind tx s x wf nothing fine same =
      outcome-fee_taken tx.fee (saved x s) (saved-Wf s x wf)
      ∙ ap (λ o. after o (collect tx.fee)) (sym (nothing (view (saved x s))))
      ∙ effect_accepted kind tx s x wf fine same

  outcome-stake_locked :
      (tx : Transaction) (s : S)
      → Wf s
      → outcome (stake_locked laws tx s) ≡ effect stake_lock tx (view s)
  unfolding stake_locked accepts affordable fits
  outcome-stake_locked tx s wf =
      let x = holder laws s tx.sender in
      guarded (ltb (tx.amount + tx.fee) u64_mod) _ _ _
        (λ fit.
          guarded (leb (tx.amount + tx.fee) x.balance) _ _ _
            (λ rich.
              guarded (x.nonce == tx.nonce) _ _ _
                (λ fresh.
                  guarded (ltb (x.staked_balance + tx.amount) u64_mod) _ _ _
                    (λ room.
                      outcome-accepted stake_lock tx s (locked laws s tx) wf
                        (λ l. (unfold received in refl)) (ground (arith, fit, rich, fresh, room))
                        (unfold spent update_validator_tier in refl))
                    (λ full. effect_refused stake_lock tx s (ground (arith, full))))
                (λ stale. effect_refused stake_lock tx s (ground (arith, stale))))
            (λ poor. effect_refused stake_lock tx s (ground (arith, poor))))
        (λ over. effect_refused stake_lock tx s (ground (arith, over)))

  outcome-stake_unlocked :
      (tx : Transaction) (s : S)
      → Wf s
      → outcome (stake_unlocked laws tx s) ≡ effect stake_unlock tx (view s)
  unfolding stake_unlocked accepts affordable fits
  outcome-stake_unlocked tx s wf =
      let x = holder laws s tx.sender in
      guarded (leb tx.amount x.staked_balance) _ _ _
        (λ staked.
          guarded (leb tx.fee x.balance) _ _ _
            (λ rich.
              guarded (x.nonce == tx.nonce) _ _ _
                (λ fresh.
                  guarded (ltb (x.balance + tx.amount) u64_mod) _ _ _
                    (λ room.
                      outcome-accepted stake_unlock tx s (unlocked laws s tx) wf
                        (λ l. (unfold received in refl)) (ground (arith, staked, rich, fresh, room))
                        (unfold spent update_validator_tier in refl))
                    (λ full. effect_refused stake_unlock tx s (ground (arith, full))))
                (λ stale. effect_refused stake_unlock tx s (ground (arith, stale))))
            (λ poor. effect_refused stake_unlock tx s (ground (arith, poor))))
        (λ short. effect_refused stake_unlock tx s (ground (arith, short)))

  -- The two kinds that pay a fee only.
  outcome-fee_paid :
      (kind : TransactionType) (tx : Transaction) (s : S)
      → Wf s
      → ((ledger : Ledger) → received kind tx ledger ≡ some ledger)
      → accepts kind tx (holder laws s tx.sender) ≡ (
          leb tx.fee (holder laws s tx.sender).balance
          && (holder laws s tx.sender).nonce == tx.nonce)
      → charged laws s tx.sender tx.fee ≡ spent kind tx (holder laws s tx.sender)
      → outcome (fee_paid laws tx s) ≡ effect kind tx (view s)
  unfolding fee_paid
  outcome-fee_paid kind tx s wf nothing accepted same =
      let x = holder laws s tx.sender in
      guarded (leb tx.fee x.balance) _ _ _
        (λ rich.
          guarded (x.nonce == tx.nonce) _ _ _
            (λ fresh.
              outcome-accepted kind tx s (charged laws s tx.sender tx.fee) wf nothing
                (accepted ∙ ground (arith, rich, fresh)) same)
            (λ stale. effect_refused kind tx s (accepted ∙ ground (arith, stale))))
        (λ poor. effect_refused kind tx s (accepted ∙ ground (arith, poor)))

  outcome-apply_as :
      (kind : TransactionType) (tx : Transaction) (s : S)
      → Wf s
      → outcome (apply_as kind tx s) ≡ effect kind tx (view s)
  outcome-apply_as transfer tx s wf =
      rw (apply_transfer_ok laws tx s wf) (outcome-transferred tx s wf)
  outcome-apply_as stake_lock tx s wf =
      rw (apply_stake_lock_ok laws tx s wf) (outcome-stake_locked tx s wf)
  outcome-apply_as stake_unlock tx s wf =
      rw (apply_stake_unlock_ok laws tx s wf) (outcome-stake_unlocked tx s wf)
  outcome-apply_as contract_deploy tx s wf = rw (apply_fee_only_ok laws tx s wf) (
      outcome-fee_paid contract_deploy tx s wf (λ l. (unfold received in refl))
        (unfold accepts affordable fits in refl) (unfold spent in refl))
  outcome-apply_as contract_call tx s wf = rw (apply_fee_only_ok laws tx s wf) (
      outcome-fee_paid contract_call tx s wf (λ l. (unfold received in refl))
        (unfold accepts affordable fits in refl) (unfold spent in refl))

  -- On a lawful store, for a transaction of any type: the transition succeeds exactly when the
  -- abstract ledger of the state accepts the transaction, and then the ledger of the new state is the
  -- abstract effect, at every address.
  pub apply_transaction-effect :
      (tx : Transaction) (s : S)
      → Wf s
      → outcome (apply_transaction tx s) ≡ effect tx.transaction_type tx (view s)
  apply_transaction-effect tx s wf =
      rw (apply_transaction-eq-apply_as laws tx s) (outcome-apply_as tx.transaction_type tx s wf)
