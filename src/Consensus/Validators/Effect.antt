-- ===== src/Consensus/Validators/Effect.antt =====
-- What epoch rewards do to the balance of every address.
use kyvera_core.Prelude.{
  ℕ, ◌+◌, ◌-◌, ◌*◌, ◌/◌, ◌%◌, ◌^◌, ◌<◌, ◌≡◌, sym, ap, true, List, Text, arith, ok,
}
use kyvera_core.Types.Account.{u64_mod}
use kyvera_core.Types.Transaction.{Transaction}
use kyvera_core.Storage.Exec.{bind_inversion}
use kyvera_core.Storage.Store.{Store}
use kyvera_core.Storage.Store.Laws.{Laws, holder, supply, contains, distinct}
use kyvera_core.Storage.StateTrie.{treasury_address}
use kyvera_core.Consensus.Coinbase.{apply_coinbase, calculate_validator_fee_share}
use kyvera_core.Consensus.Validators.{distribute_validator_rewards, apply_epoch_rewards}
use kyvera_core.Consensus.Validators.Shares.{weight_total}
use kyvera_core.Consensus.Validators.Gains.{
  paid_to, spread, spread_to, Gains, credit_positive-Gains, apply_coinbase-Gains,
  distribute_validator_rewards-Gains,
}
use kyvera_core.Consensus.Validators.Supply.{all_listed, weights_at, apply_epoch_rewards-supply}

module _ {S : Type 0} ⦃store : Store S⦄ (laws : Laws store) where
  -- The weights of the validators after the coinbase.
  abbrev pub weights_after : Transaction → S → List (Text × ℕ)
  weights_after coinbase s = weights_at laws (apply_coinbase coinbase 0 s).1

module _ {S : Type 0} ⦃store : Store S⦄ (laws : Laws store) (b : Text) where
  open laws use {Wf, saved, saved-Wf, list_accounts_ok}

  apply_epoch_rewards-Gains :
      (coinbase : Transaction) (total_fees : ℕ) (s s' : S)
      → Wf s
      → weight_total (weights_after laws coinbase s) < 2 ^ 128
      → apply_epoch_rewards coinbase total_fees s ≡ (ok tt, s')
      → Gains laws b s
          (paid_to b coinbase.receiver coinbase.amount
            + spread_to b (calculate_validator_fee_share total_fees) (weights_after laws coinbase s)
            + paid_to b treasury_address (
                calculate_validator_fee_share total_fees
                - spread
                    (calculate_validator_fee_share total_fees)
                    (weights_after laws coinbase s)))
          s'
  unfolding apply_epoch_rewards calculate_validator_fee_share
  apply_epoch_rewards-Gains coinbase total_fees s s' wf room e =
      let share : ℕ = total_fees * 40 % u64_mod / 100 in
      let (_, s₁, mined, later) = bind_inversion (apply_coinbase coinbase 0) _ s s' tt e in
      let (d, s₂, shared, last) =
        bind_inversion (distribute_validator_rewards share) _ s₁ s' tt later in
      let at₁ : s₁ ≡ (apply_coinbase coinbase 0 s).1 = ap (λ r. r.1) (sym mined) in
      let paid₁ = apply_coinbase-Gains laws b coinbase s s₁ wf mined in
      let room₁ : weight_total (weights_at laws s₁) < 2 ^ 128 = rw at₁ room in
      let (exact, paid₂) =
        distribute_validator_rewards-Gains laws b share d s₁ s₂ paid₁.1 (omega arith) room₁
          shared in
      let paid₃ = credit_positive-Gains laws b treasury_address (share - d) s₂ s' paid₂.1 last in
      rw⁻¹ (at₁, exact) (omega (arith, paid₁.0, paid₂.0, paid₃.0), paid₃.1)

module _ {S : Type 0} ⦃store : Store S⦄ (laws : Laws store) (addresses : List Text)
    (once : distinct addresses ≡ true) where
  open laws use {Wf}

  -- On a lawful store, for a list of distinct addresses with the miner, the treasury and, after the
  -- coinbase, all validators among them, and weights that then sum to less than 2^128: epoch
  -- rewards that succeed raise the sum of all funds by exactly the coinbase's amount and the
  -- validators' share of the fees; every address receives the coinbase's amount if it is the
  -- coinbase's receiver, its own shares as a validator, and, if it is the treasury, what the shares
  -- of all validators leave of the fees' share, and nothing else.
  pub apply_epoch_rewards-effect :
      (coinbase : Transaction) (total_fees : ℕ) (s s' : S) (b : Text)
      → Wf s
      → contains addresses coinbase.receiver ≡ true
      → contains addresses treasury_address ≡ true
      → all_listed addresses (weights_after laws coinbase s) ≡ true
      → weight_total (weights_after laws coinbase s) < 2 ^ 128
      → apply_epoch_rewards coinbase total_fees s ≡ (ok tt, s')
      → (supply laws addresses s'
          ≡ supply laws addresses s + coinbase.amount + calculate_validator_fee_share total_fees)
        × ((holder laws s' b).balance
            ≡ (holder laws s b).balance
              + (paid_to b coinbase.receiver coinbase.amount
                  + spread_to b
                      (calculate_validator_fee_share total_fees)
                      (weights_after laws coinbase s)
                  + paid_to b treasury_address (
                      calculate_validator_fee_share total_fees
                      - spread
                          (calculate_validator_fee_share total_fees)
                          (weights_after laws coinbase s))))
  apply_epoch_rewards-effect coinbase total_fees s s' b wf miner treasury listed room e = (
    apply_epoch_rewards-supply laws addresses once coinbase total_fees s s' wf miner treasury listed
        room e,
    (apply_epoch_rewards-Gains laws b coinbase total_fees s s' wf room e).0,
  )
