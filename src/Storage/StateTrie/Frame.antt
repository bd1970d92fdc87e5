-- ===== src/Storage/StateTrie/Frame.antt =====
-- The accounts that a transition touches.
use kyvera_core.Prelude.{
  ◌≡◌, refl, ap, some, ◌∙◌, ◌+◌, ◌/◌, true, false, Bool, arith, Text, text_eq, err, Result,
  if◌then◌else◌, ltb, leb, ◌==◌, ℕ,
}
use kyvera_core.Types.Account.{Account, u64_mod, update_validator_tier}
use kyvera_core.Types.Transaction.{
  Transaction, TransactionType, transfer, stake_lock, stake_unlock, contract_deploy, contract_call,
}
use kyvera_core.Storage.Exec.{Exec, Fault}
use kyvera_core.Storage.Store.{Store}
use kyvera_core.Storage.Store.Laws.{Laws, holder, credited, holder-address}
use kyvera_core.Storage.StateTrie.{
  treasury_address, apply_transfer, apply_stake_lock, apply_stake_unlock, apply_fee_only,
  apply_transaction,
}
use kyvera_core.Storage.StateTrie.Outcomes.{
  fee_taken, charged, transferred, apply_transfer_ok, locked, stake_locked, apply_stake_lock_ok,
  unlocked, stake_unlocked, apply_stake_unlock_ok, fee_paid, apply_fee_only_ok,
}

-- A property of both branches holds of the conditional.
if_both {ℓ κ} :
    {A : Type ℓ} (P : A → Type κ) (b : Bool) {x y : A} → P x → P y → P (if b then x else y)
if_both P true p q = p
if_both P false p q = q

module _ {S : Type 0} ⦃store : Store S⦄ (laws : Laws store) where
  open laws use {Wf, account, saved, saved-Wf, account-saved}

  -- A state that is lawful and that shows the same account at `a` as `s`.
  record Framed (s : S) (a : Text) (t : S) : Type 0 where
    pub wf : Wf t
    pub same : account t a ≡ account s a

  Framed-saved :
      (s : S) (a b : Text) (t : S) (x : Account)
      → Framed s a t
      → text_eq b a ≡ false
      → x.address ≡ (holder laws t b).address
      → Framed s a (saved x t)
  Framed-saved s a b t x f apart same = record {
    wf = saved-Wf t x f.wf;
    same =
        account-saved t x a f.wf
        ∙ ap (λ c. if text_eq c a then some x else account t a)
            (same ∙ holder-address laws t b f.wf)
        ∙ rw apart f.same;
  }

  -- The same of the state that a call leaves, whatever it returns.
  record After (s : S) (a : Text) (r : Result Fault (Unit {0}) × S) : Type 0 where
    pub left : Framed s a r.1

  unchanged : (s : S) (a : Text) (e : Fault) → Wf s → After s a (err e, s)
  unchanged s a e wf = record { left = record { wf = wf; same = refl } }

  fee_taken_frame :
      (fee : ℕ) (s : S) (a : Text) (t : S)
      → text_eq treasury_address a ≡ false
      → Framed s a t
      → After s a (fee_taken laws fee t)
  unfolding fee_taken
  fee_taken_frame fee s a t apart f =
      if_both (After s a) (ltb 0 (fee / 10))
        (if_both (After s a) (ltb ((holder laws t treasury_address).balance + fee / 10) u64_mod)
          (record {
            left =
                Framed-saved s a treasury_address t (credited laws t treasury_address (fee / 10)) f
                  apart refl;
          })
          (record { left = f }))
        (record { left = f })

  module _ (tx : Transaction) (s : S) (a : Text) (wf : Wf s)
      (not_sender : text_eq tx.sender a ≡ false)
      (not_treasury : text_eq treasury_address a ≡ false) where
    from_sender :
        (x : Account) → x.address ≡ (holder laws s tx.sender).address → Framed s a (saved x s)
    from_sender x same =
        Framed-saved s a tx.sender s x (record { wf = wf; same = refl }) not_sender same

    transferred_frame : text_eq tx.receiver a ≡ false → After s a (transferred laws tx s)
    unfolding transferred
    transferred_frame not_receiver =
        let c : Account = charged laws s tx.sender (tx.amount + tx.fee) in
        let f : Framed s a (saved c s) = from_sender c refl in
        let r : Account = credited laws (saved c s) tx.receiver tx.amount in
        if_both (After s a) (ltb (tx.amount + tx.fee) u64_mod)
          (if_both (After s a) (leb (tx.amount + tx.fee) (holder laws s tx.sender).balance)
            (if_both (After s a) ((holder laws s tx.sender).nonce == tx.nonce)
              (if_both (After s a)
                (ltb ((holder laws (saved c s) tx.receiver).balance + tx.amount) u64_mod)
                (fee_taken_frame tx.fee s a (saved r (saved c s)) not_treasury
                  (Framed-saved s a tx.receiver (saved c s) r f not_receiver refl))
                (record { left = f }))
              (unchanged s a _ wf))
            (unchanged s a _ wf))
          (unchanged s a _ wf)

    stake_locked_frame : After s a (stake_locked laws tx s)
    unfolding stake_locked update_validator_tier
    stake_locked_frame =
        if_both (After s a) (ltb (tx.amount + tx.fee) u64_mod)
          (if_both (After s a) (leb (tx.amount + tx.fee) (holder laws s tx.sender).balance)
            (if_both (After s a) ((holder laws s tx.sender).nonce == tx.nonce)
              (if_both (After s a)
                (ltb ((holder laws s tx.sender).staked_balance + tx.amount) u64_mod)
                (fee_taken_frame tx.fee s a (saved (locked laws s tx) s) not_treasury
                  (from_sender (locked laws s tx) refl))
                (unchanged s a _ wf))
              (unchanged s a _ wf))
            (unchanged s a _ wf))
          (unchanged s a _ wf)

    stake_unlocked_frame : After s a (stake_unlocked laws tx s)
    unfolding stake_unlocked update_validator_tier
    stake_unlocked_frame =
        if_both (After s a) (leb tx.amount (holder laws s tx.sender).staked_balance)
          (if_both (After s a) (leb tx.fee (holder laws s tx.sender).balance)
            (if_both (After s a) ((holder laws s tx.sender).nonce == tx.nonce)
              (if_both (After s a) (ltb ((holder laws s tx.sender).balance + tx.amount) u64_mod)
                (fee_taken_frame tx.fee s a (saved (unlocked laws s tx) s) not_treasury
                  (from_sender (unlocked laws s tx) refl))
                (unchanged s a _ wf))
              (unchanged s a _ wf))
            (unchanged s a _ wf))
          (unchanged s a _ wf)

    fee_paid_frame : After s a (fee_paid laws tx s)
    unfolding fee_paid
    fee_paid_frame =
        if_both (After s a) (leb tx.fee (holder laws s tx.sender).balance)
          (if_both (After s a) ((holder laws s tx.sender).nonce == tx.nonce)
            (fee_taken_frame tx.fee s a (saved (charged laws s tx.sender tx.fee) s) not_treasury
              (from_sender (charged laws s tx.sender tx.fee) refl))
            (unchanged s a _ wf))
          (unchanged s a _ wf)

-- The transition of a transaction type; `apply_transaction` takes the type from the transaction.
abbrev pub apply_as :
    {S : Type 0} ⦃store : Store S⦄ → TransactionType → Transaction → Exec S (Unit {0})
apply_as transfer tx = apply_transfer tx
apply_as stake_lock tx = apply_stake_lock tx
apply_as stake_unlock tx = apply_stake_unlock tx
apply_as contract_deploy tx = apply_fee_only tx
apply_as contract_call tx = apply_fee_only tx

module _ {S : Type 0} ⦃store : Store S⦄ (laws : Laws store) where
  open laws use {Wf, account}

  apply_as_frame :
      (k : TransactionType) (tx : Transaction) (s : S) (a : Text)
      → Wf s
      → text_eq tx.sender a ≡ false
      → text_eq treasury_address a ≡ false
      → text_eq tx.receiver a ≡ false
      → After laws s a (apply_as k tx s)
  apply_as_frame transfer tx s a wf p q r =
      rw (apply_transfer_ok laws tx s wf) (transferred_frame laws tx s a wf p q r)
  apply_as_frame stake_lock tx s a wf p q r =
      rw (apply_stake_lock_ok laws tx s wf) (stake_locked_frame laws tx s a wf p q)
  apply_as_frame stake_unlock tx s a wf p q r =
      rw (apply_stake_unlock_ok laws tx s wf) (stake_unlocked_frame laws tx s a wf p q)
  apply_as_frame contract_deploy tx s a wf p q r =
      rw (apply_fee_only_ok laws tx s wf) (fee_paid_frame laws tx s a wf p q)
  apply_as_frame contract_call tx s a wf p q r =
      rw (apply_fee_only_ok laws tx s wf) (fee_paid_frame laws tx s a wf p q)

  pub apply_transaction-eq-apply_as :
      (tx : Transaction) (s : S) → apply_transaction tx s ≡ apply_as tx.transaction_type tx s
  unfolding apply_transaction
  apply_transaction-eq-apply_as tx s = ground arith

  -- On a lawful store, for a transaction of any type and whether it succeeds or fails: every address
  -- other than the sender, the receiver and the treasury keeps its account (or has none), as before.
  pub account-apply_transaction :
      (tx : Transaction) (s : S) (a : Text)
      → Wf s
      → text_eq tx.sender a ≡ false
      → text_eq tx.receiver a ≡ false
      → text_eq treasury_address a ≡ false
      → account (apply_transaction tx s).1 a ≡ account s a
  account-apply_transaction tx s a wf p r q =
      rw (apply_transaction-eq-apply_as tx s)
        ((apply_as_frame tx.transaction_type tx s a wf p q r).left.same)
