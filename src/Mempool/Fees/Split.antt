-- ===== src/Mempool/Fees/Split.antt =====
-- `calculate_fee_split`: the parts against the fee.
use kyvera_core.Prelude.{ℕ, ◌+◌, ◌*◌, ◌/◌, ◌≤◌, ◌<◌, ◌≡◌, arith}
use kyvera_core.Types.Account.{u64_mod}
use kyvera_core.Mempool.Fees.{calculate_fee_split}

-- For every `u64` fee, also where a product wraps, the three parts of the split add up to the fee
-- exactly, so that no unit is created or lost.
pub calculate_fee_split-sum :
    (fee : ℕ)
    → fee < u64_mod
    → (calculate_fee_split fee).burn
        + (calculate_fee_split fee).validator
        + (calculate_fee_split fee).treasury
      ≡ fee
unfolding calculate_fee_split
calculate_fee_split-sum fee h = omega arith

-- Where no product wraps (`fee * 5000` below 2^64), the validators get two fifths and the treasury
-- a tenth, both rounded down, and the burn gets at least half, at most two units more.
pub calculate_fee_split_shares :
    (fee : ℕ)
    → fee * 5_000 < u64_mod
    → ((calculate_fee_split fee).validator ≡ 2 * fee / 5)
      × ((calculate_fee_split fee).treasury ≡ fee / 10)
      × (fee ≤ 2 * (calculate_fee_split fee).burn)
      × (2 * (calculate_fee_split fee).burn ≤ fee + 4)
unfolding calculate_fee_split
calculate_fee_split_shares fee h = (omega arith, omega arith, omega arith, omega arith)
