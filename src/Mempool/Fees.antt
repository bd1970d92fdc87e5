-- ===== src/Mempool/Fees.antt =====
-- src/mempool/fees.rs: the fee floor of each transaction type and the split of a collected fee.
-- Products wrap at 2^64 as in a release build. The multiplier on floats is not modelled.
pub mod Split
use kyvera_core.Prelude.{ℕ, ◌+◌, ◌-◌, ◌*◌, ◌/◌, ◌%◌, Bool, List, [], ◌∷◌, leb}
use kyvera_core.Types.Account.{u64_mod}
use kyvera_core.Types.Transaction.{
  Transaction, TransactionType, transfer, stake_lock, stake_unlock, contract_deploy, contract_call,
}

abbrev pub fee_transfer : ℕ
fee_transfer = 1_000_000

abbrev pub fee_contract_call : ℕ
fee_contract_call = 5_000_000

abbrev pub fee_contract_deploy : ℕ
fee_contract_deploy = 100_000_000

abbrev pub fee_stake_lock : ℕ
fee_stake_lock = 1_000_000

abbrev pub fee_stake_unlock : ℕ
fee_stake_unlock = 1_000_000

abbrev pub burn_share_bps : ℕ
burn_share_bps = 5_000

abbrev pub validator_share_bps : ℕ
validator_share_bps = 4_000

abbrev pub treasury_share_bps : ℕ
treasury_share_bps = 1_000

unfoldable pub minimum_fee : TransactionType → ℕ
minimum_fee transfer = fee_transfer
minimum_fee contract_call = fee_contract_call
minimum_fee contract_deploy = fee_contract_deploy
minimum_fee stake_lock = fee_stake_lock
minimum_fee stake_unlock = fee_stake_unlock

unfoldable pub fee_is_sufficient : Transaction → Bool
unfolding minimum_fee
fee_is_sufficient tx = leb (minimum_fee tx.transaction_type) tx.fee

unfoldable pub calculate_burn_amount : ℕ → ℕ
calculate_burn_amount fee = fee * burn_share_bps % u64_mod / 10_000

unfoldable pub calculate_validator_amount : ℕ → ℕ
calculate_validator_amount fee = fee * validator_share_bps % u64_mod / 10_000

unfoldable pub calculate_treasury_amount : ℕ → ℕ
calculate_treasury_amount fee = fee * treasury_share_bps % u64_mod / 10_000

pub record FeeSplit : Type 0 where
  pub burn : ℕ
  pub validator : ℕ
  pub treasury : ℕ

-- The rounding dust goes to the burn; `saturating_sub` stops at 0.
unfoldable pub calculate_fee_split : ℕ → FeeSplit
unfolding calculate_burn_amount calculate_validator_amount calculate_treasury_amount
calculate_fee_split fee =
    let burn = calculate_burn_amount fee in
    let validator = calculate_validator_amount fee in
    let treasury = calculate_treasury_amount fee in
    let dust = fee - burn - validator - treasury in
    record { burn = (burn + dust) % u64_mod; validator = validator; treasury = treasury }

-- `sum` of the fees, wrapping.
unfoldable pub total_fees : List Transaction → ℕ
total_fees [] = 0
total_fees (tx ∷ txs) = (tx.fee + total_fees txs) % u64_mod
