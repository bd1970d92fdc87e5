-- ===== src/Consensus/Validators/Slashing.antt =====
-- What slashing does to the sum of all funds.
use native.Mathlib.Nat.{mul-le-mul_left}
use kyvera_core.Prelude.{
  min, ℕ, ◌+◌, ◌-◌, ◌*◌, ◌/◌, ◌%◌, ◌≤◌, ◌<◌, ◌≡◌, sym, ap, inl, inr, Bool-cases, Option-cases, true,
  List, Text, arith, ok, ltb, ◌==◌,
}
use kyvera_core.Types.Account.{Account, u64_mod, update_validator_tier}
use kyvera_core.Storage.Exec.{bind_inversion, pure}
use kyvera_core.Storage.Store.{Store}
use kyvera_core.Storage.Store.Laws.{Laws, holder, supply, contains, distinct}
use kyvera_core.Storage.AccountStore.{credit_account}
use kyvera_core.Storage.StateTrie.{treasury_address}
use kyvera_core.Storage.StateTrie.Supply.{supply_write}
use kyvera_core.Consensus.Validators.{slash_account, slash_validator}
use kyvera_core.Consensus.Validators.Supply.{credit_account-Paid}

module _ {S : Type 0} ⦃store : Store S⦄ (laws : Laws store) (addresses : List Text)
    (once : distinct addresses ≡ true) where
  open laws use {Wf, saved, saved-Wf, get_account_ok, save_account_ok}

  slash_account-supply :
      (a : Account) (address : Text) (amount slashed : ℕ) (s s' : S)
      → Wf s
      → holder laws s address ≡ a
      → amount ≤ a.staked_balance
      → a.staked_balance < u64_mod
      → contains addresses address ≡ true
      → contains addresses treasury_address ≡ true
      → slash_account a amount s ≡ (ok slashed, s')
      → supply laws addresses s' ≡ supply laws addresses s
  unfolding slash_account update_validator_tier
  slash_account-supply a address amount slashed s s' wf same small word listed treasury e =
      let x : Account =
        update_validator_tier
          (record a { staked_balance = (a.staked_balance + u64_mod - amount) % u64_mod }) in
      elim (Bool-cases (amount == 0)) [
        | inl nothing ↦
            (let unchanged : s ≡ s' = cc (e, nothing) in ap (supply laws addresses) (sym unchanged))
        | inr something ↦
            (let e' = rw (something, save_account_ok s x wf) at e in
              let (_, s₁, credit, last) =
                bind_inversion (credit_account treasury_address amount) (λ _. pure amount)
                  (saved x s) s' slashed e' in
              let ended : s₁ ≡ s' = cc (last) in
              let paid =
                credit_account-Paid laws addresses once treasury_address amount (saved x s) s₁
                  (saved-Wf s x wf) treasury credit in
              let written =
                supply_write laws addresses once s address x wf listed
                  (ap (λ y. y.address) (sym same)) in
              omega (
                arith,
                paid.0,
                written,
                ap (supply laws addresses) ended,
                ap (λ y. y.balance) same,
                ap (λ y. y.staked_balance) same,
              ))
      ]

  -- On a lawful store, for a list of distinct addresses with the validator and the treasury among
  -- them: slashing by at most 10,000 basis points that succeeds keeps the sum of all funds, also
  -- when the treasury itself is slashed.
  pub slash_validator-supply :
      (address : Text) (slash_bps slashed : ℕ) (s s' : S)
      → Wf s
      → slash_bps ≤ 10_000
      → (holder laws s address).staked_balance < u64_mod
      → contains addresses address ≡ true
      → contains addresses treasury_address ≡ true
      → slash_validator address slash_bps s ≡ (ok slashed, s')
      → supply laws addresses s' ≡ supply laws addresses s
  unfolding slash_validator
  slash_validator-supply address slash_bps slashed s s' wf bps word listed treasury e =
      elim (Option-cases (laws.account s address)) [
        | inl missing ↦ absurd (cc (rw (get_account_ok s address wf, missing) at e))
        | inr (a, found) ↦
            (let held : holder laws s address ≡ a = rw found in
              let word' : a.staked_balance < u64_mod = rw held at word in
              let bound : min (a.staked_balance * slash_bps) (u64_mod - 1) / 10_000
                  ≤ a.staked_balance =
                omega (arith, mul-le-mul_left a.staked_balance bps) in
              elim (Bool-cases (ltb 0 a.staked_balance)) [
                | inl staked ↦
                    slash_account-supply a address
                      (min (a.staked_balance * slash_bps) (u64_mod - 1) / 10_000) slashed s s' wf
                      held bound word' listed treasury
                      (rw (get_account_ok s address wf, found, staked) at e)
                | inr unstaked ↦
                    absurd (cc (rw (get_account_ok s address wf, found, unstaked) at e))
              ])
      ]
