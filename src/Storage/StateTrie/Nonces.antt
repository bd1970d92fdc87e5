-- ===== src/Storage/StateTrie/Nonces.antt =====
-- The nonces of a transition, and a second application.
use kyvera_core.Prelude.{
  ℕ, ◌+◌, ◌/◌, ◌%◌, ◌<◌, ◌≡◌, ◌≢◌, refl, ap, ◌∙◌, arith, Text, text_eq, text_eq_iff, text_eq_refl,
  ok, if◌then◌else◌, Bool-cases, inl, inr,
}
use kyvera_core.Types.Account.{Account, u64_mod, update_validator_tier}
use kyvera_core.Types.Transaction.{Transaction}
use kyvera_core.Storage.Store.{Store}
use kyvera_core.Storage.Store.Laws.{Laws, holder, credited, holder-address, holder-saved}
use kyvera_core.Storage.StateTrie.{treasury_address, apply_transaction}
use kyvera_core.Storage.StateTrie.Outcomes.{
  fee_taken, charged, transferred, apply_transfer_ok, locked, stake_locked, apply_stake_lock_ok,
  unlocked, stake_unlocked, apply_stake_unlock_ok, fee_paid, apply_fee_only_ok,
}

module _ {S : Type 0} ⦃store : Store S⦄ (laws : Laws store) where
  open laws use {Wf, saved, saved-Wf}

  abbrev pub nonce_of : S → Text → ℕ
  nonce_of s a = (holder laws s a).nonce

  nonce-saved :
      (s : S) (b : Text) (x : Account) (a : Text)
      → Wf s
      → x.address ≡ (holder laws s b).address
      → nonce_of (saved x s) a ≡ (if text_eq b a then x.nonce else nonce_of s a)
  nonce-saved s b x a wf same =
      let e : x.address ≡ b = same ∙ holder-address laws s b wf in
      ap (λ h. Account.nonce h) (holder-saved laws s x a wf)
      ∙ ap (λ t. Account.nonce (if text_eq t a then x else holder laws s a)) e
      ∙ (elim (Bool-cases (text_eq b a)) [ inl t ↦ rw (t) | inr f ↦ rw (f) ])

  -- A credit leaves every nonce as it was.
  nonce-credited :
      (s : S) (b : Text) (amount : ℕ) (a : Text)
      → Wf s
      → nonce_of (saved (credited laws s b amount) s) a ≡ nonce_of s a
  nonce-credited s b amount a wf =
      ground (arith, nonce-saved s b (credited laws s b amount) a wf refl, text_eq_iff b a)

  nonce-fee_taken :
      (fee : ℕ) (s s' : S) (a : Text)
      → Wf s
      → fee_taken laws fee s ≡ (ok tt, s')
      → nonce_of s' a ≡ nonce_of s a
  unfolding fee_taken
  nonce-fee_taken fee s s' a wf e =
      ground (arith, nonce-credited s treasury_address (fee / 10) a wf)

  -- What a successful transaction does to the nonces: the sender's was the transaction's and goes
  -- up by one, and every other stays.
  record Counted (tx : Transaction) (s s' : S) (a : Text) : Type 0 where
    pub matched : nonce_of s tx.sender ≡ tx.nonce
    pub counted :
        nonce_of s' a ≡ (if text_eq tx.sender a then (tx.nonce + 1) % u64_mod else nonce_of s a)

  transferred_counts :
      (tx : Transaction) (s s' : S) (a : Text)
      → Wf s
      → transferred laws tx s ≡ (ok tt, s')
      → Counted tx s s' a
  unfolding transferred
  transferred_counts tx s s' a wf e =
      let c : Account = charged laws s tx.sender (tx.amount + tx.fee) in
      let s₁ : S = saved c s in
      let r : Account = credited laws s₁ tx.receiver tx.amount in
      ground (
        arith,
        nonce-saved s tx.sender c a wf refl,
        nonce-credited s₁ tx.receiver tx.amount a (saved-Wf s c wf),
        nonce-fee_taken tx.fee (saved r s₁) s' a (saved-Wf s₁ r (saved-Wf s c wf)),
      )

  stake_locked_counts :
      (tx : Transaction) (s s' : S) (a : Text)
      → Wf s
      → stake_locked laws tx s ≡ (ok tt, s')
      → Counted tx s s' a
  unfolding stake_locked update_validator_tier
  stake_locked_counts tx s s' a wf e =
      let c : Account = locked laws s tx in
      ground (
        arith,
        nonce-saved s tx.sender c a wf refl,
        nonce-fee_taken tx.fee (saved c s) s' a (saved-Wf s c wf),
      )

  stake_unlocked_counts :
      (tx : Transaction) (s s' : S) (a : Text)
      → Wf s
      → stake_unlocked laws tx s ≡ (ok tt, s')
      → Counted tx s s' a
  unfolding stake_unlocked update_validator_tier
  stake_unlocked_counts tx s s' a wf e =
      let c : Account = unlocked laws s tx in
      ground (
        arith,
        nonce-saved s tx.sender c a wf refl,
        nonce-fee_taken tx.fee (saved c s) s' a (saved-Wf s c wf),
      )

  fee_paid_counts :
      (tx : Transaction) (s s' : S) (a : Text)
      → Wf s
      → fee_paid laws tx s ≡ (ok tt, s')
      → Counted tx s s' a
  unfolding fee_paid
  fee_paid_counts tx s s' a wf e =
      let c : Account = charged laws s tx.sender tx.fee in
      ground (
        arith,
        nonce-saved s tx.sender c a wf refl,
        nonce-fee_taken tx.fee (saved c s) s' a (saved-Wf s c wf),
      )

  -- On a lawful store, for a transaction of any type that is applied successfully: the sender's
  -- nonce was the transaction's, the sender's nonce is now one higher (wrapping at 2^64), and the
  -- nonce of every other address is unchanged.
  pub apply_transaction-nonce :
      (tx : Transaction) (s s' : S) (a : Text)
      → Wf s
      → apply_transaction tx s ≡ (ok tt, s')
      → (nonce_of s tx.sender ≡ tx.nonce)
        × (nonce_of s' a ≡ (if text_eq tx.sender a then (tx.nonce + 1) % u64_mod else nonce_of s a))
  unfolding apply_transaction
  apply_transaction-nonce tx s s' a wf e = ground (
    arith,
    apply_transfer_ok laws tx s wf,
    apply_stake_lock_ok laws tx s wf,
    apply_stake_unlock_ok laws tx s wf,
    apply_fee_only_ok laws tx s wf,
    transferred_counts tx s s' a wf,
    stake_locked_counts tx s s' a wf,
    stake_unlocked_counts tx s s' a wf,
    fee_paid_counts tx s s' a wf,
  )

  -- On a lawful store, with the nonce below the last value of a `u64`: a transaction that was
  -- applied successfully is not applied successfully again, in whatever lawful state the first
  -- application left.
  pub apply_transaction_replay :
      (tx : Transaction) (s s' s'' : S)
      → Wf s
      → Wf s'
      → tx.nonce + 1 < u64_mod
      → apply_transaction tx s ≡ (ok tt, s')
      → apply_transaction tx s' ≢ (ok tt, s'')
  apply_transaction_replay tx s s' s'' wf wf' small first again =
      let (before, after) = apply_transaction-nonce tx s s' tx.sender wf first in
      let (now, _) = apply_transaction-nonce tx s' s'' tx.sender wf' again in
      ground (arith, text_eq_refl tx.sender)
