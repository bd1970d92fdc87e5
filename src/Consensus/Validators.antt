-- ===== src/Consensus/Validators.antt =====
-- src/consensus/validators.rs: validator weights, the distribution of fees, epoch rewards and
-- slashing. `u128` sums wrap at 2^128 and `as u64` keeps the low 64 bits.
pub mod Shares
pub mod Supply
pub mod Gains
pub mod Effect
pub mod Slashing
use kyvera_core.Prelude.{
  ℕ, ◌+◌, ◌-◌, ◌*◌, ◌/◌, ◌%◌, ◌^◌, Bool, true, false, Option, none, some, List, [], ◌∷◌, map, Text,
  Result, ok, err, ltb, ◌==◌, if◌then◌else◌, is_empty,
}
use kyvera_core.Types.Account.{
  Account, u64_mod, reward_bonus_bps, update_validator_tier, is_validator,
}
use kyvera_core.Types.Transaction.{Transaction}
use kyvera_core.Storage.Exec.{
  Exec, Fault, ◌>>=◌, ◌>>◌, continue, pure, lift, require, no_account, no_stake,
}
use kyvera_core.Storage.Store.{Store}
use kyvera_core.Storage.AccountStore.{credit_account}
use kyvera_core.Storage.StateTrie.{treasury_address}
use kyvera_core.Consensus.Coinbase.{
  apply_coinbase, calculate_validator_fee_share, saturating_add, saturating_mul, credit_positive,
}

abbrev pub minor_slash_bps : ℕ
minor_slash_bps = 100

abbrev pub major_slash_bps : ℕ
major_slash_bps = 1000

unfoldable pub bonus_bps : Account → ℕ
bonus_bps a = elim a.validator_tier [ none ↦ 0 | some tier ↦ reward_bonus_bps tier ]

unfoldable pub calculate_validator_weight : Account → ℕ
unfolding bonus_bps
calculate_validator_weight a =
    let bonus = saturating_mul a.staked_balance (bonus_bps a) / 10_000 in
    saturating_add a.staked_balance bonus

-- `get_validators` keeps the accounts with a tier.
unfoldable pub validators_of : List Account → List Account
unfolding is_validator
validators_of [] = []
validators_of (a ∷ rest) =
    let kept = validators_of rest in if is_validator a then a ∷ kept else kept

unfoldable pub sum_weights : List (Text × ℕ) → ℕ
sum_weights [] = 0
sum_weights ((address, weight) ∷ rest) = (weight + sum_weights rest) % 2 ^ 128

unfoldable pub share_of : ℕ → ℕ → ℕ → ℕ
share_of total_share total_weight weight = total_share * weight / total_weight % u64_mod

abbrev pub weigh : List Account → List (Text × ℕ)
weigh validators = map (λ v. (v.address, calculate_validator_weight v)) validators

module _ {S : Type 0} ⦃store : Store S⦄ where
  open store use {get_account, save_account, list_accounts}

  unfoldable pub get_active_validator_set : Exec S (List Account)
  unfolding validators_of
  get_active_validator_set = do accounts ← list_accounts; pure (validators_of accounts)

  -- The loop over the weights.
  unfoldable pub pay_shares : ℕ → ℕ → List (Text × ℕ) → ℕ → Exec S ℕ
  pay_shares total_share total_weight [] distributed = pure distributed
  pay_shares total_share total_weight ((address, weight) ∷ rest) distributed =
      let share = share_of total_share total_weight weight in
      let skip = pay_shares total_share total_weight rest distributed in
      let pay : Exec S ℕ = (do
        credit_account address share
        pay_shares total_share total_weight rest (saturating_add distributed share)) in
      if ltb 0 share then pay else skip

  unfoldable pub distribute_weights : ℕ → List Account → Exec S ℕ
  unfolding pay_shares
  distribute_weights total_share validators =
      let weights = weigh validators in
      let total_weight = sum_weights weights in
      if is_empty validators
      then pure 0
      else if total_weight == 0
      then pure 0
      else pay_shares total_share total_weight weights 0

  unfoldable pub distribute_validator_rewards : ℕ → Exec S ℕ
  unfolding get_active_validator_set distribute_weights
  distribute_validator_rewards total_share =
      let pay : Exec S ℕ = (do
        validators ← get_active_validator_set
        distribute_weights total_share validators) in
      if total_share == 0 then pure 0 else pay

  unfoldable pub apply_epoch_rewards : Transaction → ℕ → Exec S (Unit {0})
  apply_epoch_rewards coinbase total_fees_collected = do
    apply_coinbase coinbase 0
    distributed ← distribute_validator_rewards (calculate_validator_fee_share total_fees_collected)
    credit_positive treasury_address
        (calculate_validator_fee_share total_fees_collected - distributed)

  -- `staked_balance -= slash_amount` wraps in a release build.
  unfoldable pub slash_account : Account → ℕ → Exec S ℕ
  slash_account a slash_amount =
      let write : Exec S ℕ = (do
        save_account (
            update_validator_tier
              (record a { staked_balance = (a.staked_balance + u64_mod - slash_amount) % u64_mod }))
        credit_account treasury_address slash_amount
        pure slash_amount) in
      if slash_amount == 0 then pure 0 else write

  unfoldable pub slash_validator : Text → ℕ → Exec S ℕ
  unfolding slash_account
  slash_validator address slash_bps = do
    found ← get_account address
    account ← lift (elim found [ none ↦ err (no_account address) | some a ↦ ok a ])
    require (ltb 0 account.staked_balance) no_stake
    slash_account account (saturating_mul account.staked_balance slash_bps / 10_000)
