-- ===== src/Examples/Economics.antt =====
-- Fees, tiers, rewards and the difficulty at concrete amounts.
use kyvera_core.Prelude.{◌+◌, ◌*◌, ◌/◌, ◌^◌, ◌≤◌, ◌≡◌, true, [], ◌∷◌, some, arith}
use kyvera_core.Prelude.Int.{◌-ℤ◌, pos}
use kyvera_core.Mempool.Fees.{calculate_fee_split}
use kyvera_core.Mempool.Fees.Split.{calculate_fee_split-sum}
use kyvera_core.Chain.Mining.{
  calculate_block_reward, halving_interval, calculate_next_difficulty, kyv_units,
}
use kyvera_core.Chain.Mining.Reward.{calculate_block_reward-halves, calculate_block_reward-restarts}
use kyvera_core.Chain.Mining.Adjustment.{stepped, calculate_next_difficulty-stepped}
use kyvera_core.Consensus.Coinbase.{calculate_mined_supply}
use kyvera_core.Consensus.Coinbase.MinedSupply.{rewards_below, calculate_mined_supply_bounded}

calculate_fee_split-sum_example :
    (calculate_fee_split 1_000_003).burn
      + (calculate_fee_split 1_000_003).validator
      + (calculate_fee_split 1_000_003).treasury
    ≡ 1_000_003
calculate_fee_split-sum_example = calculate_fee_split-sum 1_000_003 (omega arith)

calculate_block_reward-halves_example :
    calculate_block_reward (7 + halving_interval) ≡ calculate_block_reward 7 / 2
calculate_block_reward-halves_example = calculate_block_reward-halves 7 (omega arith)

calculate_block_reward-restarts_example :
    calculate_block_reward (5 + halving_interval * 2 ^ 32) ≡ calculate_block_reward 5
calculate_block_reward-restarts_example = calculate_block_reward-restarts 5

-- Two gaps of 950 seconds on average.
calculate_next_difficulty-stepped_example :
    calculate_next_difficulty 5 (pos 0 ∷ pos 900 ∷ pos 1_900 ∷ []) true
    ≡ stepped 5 (pos 1_900 -ℤ pos 0) 2 600
calculate_next_difficulty-stepped_example =
    calculate_next_difficulty-stepped 5 [] (pos 900 ∷ []) (pos 0) (pos 1_900) true (omega arith)
      (omega arith) (omega arith)

calculate_mined_supply_bounded_example :
    (calculate_mined_supply 2 ≡ some (rewards_below 3)) × (rewards_below 3 ≤ 29_000_000 * kyv_units)
calculate_mined_supply_bounded_example = calculate_mined_supply_bounded 2 (omega arith)
