-- ===== src/Consensus/Coinbase/MinedSupply.antt =====
-- `calculate_mined_supply` as a sum of rewards: its end and its size.
use native.Mathlib.Nat.{suc-mul, mul-le-mul_right}
use kyvera_core.Prelude.{
  ℕ, zero, suc, ◌+◌, ◌*◌, ◌/◌, ◌%◌, ◌^◌, ◌≤◌, ◌<◌, ◌≡◌, ◌⊎◌, inl, inr, some, arith, leb, false,
  true,
}
use kyvera_core.Types.Account.{u64_mod}
use kyvera_core.Chain.Mining.{
  calculate_block_reward, genesis_block_reward, kyv_units, halving_interval,
}
use kyvera_core.Chain.Mining.Reward.{reward-eq-shifted, shifted, shifted-suc}
use kyvera_core.Consensus.Coinbase.{saturating_add, add_rewards, calculate_mined_supply}

-- The rewards of the first `n` epoch heights.
unfoldable pub rewards_below : ℕ → ℕ
rewards_below zero = 0
rewards_below (suc n) = rewards_below n + calculate_block_reward n

-- The next height is in the same interval or starts the next one.
interval_step :
    (n : ℕ)
    → ((suc n / 290_000 ≡ n / 290_000) × (suc n % 290_000 ≡ suc (n % 290_000)))
      ⊎ ((suc n / 290_000 ≡ suc (n / 290_000)) × (suc n % 290_000 ≡ 0) × (n % 290_000 ≡ 289_999))
interval_step n = omega arith

-- One more reward within an interval, and the last one of an interval.
within :
    (paid m r : ℕ)
    → paid + 580_000 * r ≤ 29_000_000_000_000_000 + m * r
    → paid + r + 580_000 * r ≤ 29_000_000_000_000_000 + suc m * r
within paid m r h = omega (arith, suc-mul m r)

at_end :
    (paid m r next : ℕ)
    → m ≡ 289_999
    → next ≡ r / 2
    → paid + 580_000 * r ≤ 29_000_000_000_000_000 + m * r
    → paid + r + 580_000 * next ≤ 29_000_000_000_000_000 + 0 * next
at_end paid m r next e half h =
    let h' : paid + 580_000 * r ≤ 29_000_000_000_000_000 + 289_999 * r = rw (← e) h in omega arith

-- What was paid, and what is left of this interval and the later ones, is within the cap.
rewards_below_invariant :
    (n : ℕ)
    → n < halving_interval * 2 ^ 32
    → rewards_below n + 580_000 * shifted (n / 290_000)
      ≤ 580_000 * genesis_block_reward + n % 290_000 * shifted (n / 290_000)
unfolding rewards_below
rewards_below_invariant zero h = omega arith
rewards_below_invariant (suc n) h =
    let ih = rewards_below_invariant n (omega arith) in
    elim (interval_step n) [
      | inl (q, m) ↦
          rw (q, m, reward-eq-shifted n (omega arith))
            (within (rewards_below n) (n % 290_000) (shifted (n / 290_000)) ih)
      | inr (q, m, last) ↦
          rw (q, m, reward-eq-shifted n (omega arith))
            (at_end (rewards_below n) (n % 290_000) (shifted (n / 290_000))
              (shifted (suc (n / 290_000))) last (shifted-suc (n / 290_000)) ih)
    ]

-- At any time no more than the cap is paid.
rewards_below_le :
    (n : ℕ) → n < halving_interval * 2 ^ 32 → rewards_below n ≤ 580_000 * genesis_block_reward
rewards_below_le n h =
    let small : n % 290_000 ≤ 580_000 = omega arith in
    omega (arith, mul-le-mul_right (shifted (n / 290_000)) small, rewards_below_invariant n h)

-- The sum never reaches the limit of the word.
saturating_add-rewards :
    (n : ℕ)
    → suc n < halving_interval * 2 ^ 32
    → saturating_add (rewards_below n) (calculate_block_reward n) ≡ rewards_below (suc n)
unfolding rewards_below
saturating_add-rewards n h = omega (arith, rewards_below_le (suc n) h)

-- The loop at height `n` with the sum so far runs to the sum of all rewards.
add_rewards_sum :
    (epoch left n : ℕ)
    → epoch + 1 ≡ n + left
    → epoch + 1 < halving_interval * 2 ^ 32
    → add_rewards (suc left) epoch (rewards_below n) n ≡ some (rewards_below (epoch + 1))
unfolding add_rewards
add_rewards_sum epoch zero n e h =
    let over : leb n epoch ≡ false = ground arith in
    let same : n ≡ epoch + 1 = omega arith in rw (over, same)
add_rewards_sum epoch (suc left) n e h =
    let below : leb n epoch ≡ true = ground arith in
    let next : (n + 1) % u64_mod ≡ suc n = omega arith in
    rw (below, next, saturating_add-rewards n (omega arith))
      (add_rewards_sum epoch left (suc n) (omega arith) h)

-- Below 290,000 * 2^32 - 1 epochs the loop ends, its result is the sum of the rewards of all
-- heights up to and with the given one, so nothing saturates, and it is at most 29,000,000 KYV.
pub calculate_mined_supply_bounded :
    (epoch : ℕ)
    → epoch + 1 < halving_interval * 2 ^ 32
    → (calculate_mined_supply epoch ≡ some (rewards_below (epoch + 1)))
      × (rewards_below (epoch + 1) ≤ 29_000_000 * kyv_units)
unfolding calculate_mined_supply rewards_below
calculate_mined_supply_bounded epoch h = (
  let e : epoch + 2 ≡ suc (epoch + 1) = omega arith in
      rw e (add_rewards_sum epoch (epoch + 1) 0 (omega arith) h),
  rewards_below_le (epoch + 1) h,
)
