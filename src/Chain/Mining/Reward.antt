-- ===== src/Chain/Mining/Reward.antt =====
-- The emission schedule (`calculate_block_reward`): halvings, the end of the emission, and what
-- the cast of the halving count to `u32` does to it.
use native.Mathlib.Nat.{div-div-eq-div-mul, div-eq_of_lt, pow-suc, pow-le-pow_right}
use kyvera_core.Prelude.{ℕ, suc, ◌+◌, ◌*◌, ◌/◌, ◌%◌, ◌^◌, ◌≤◌, ◌<◌, ◌≡◌, ap, sym, ◌∙◌, arith}
use kyvera_core.Chain.Mining.{
  calculate_block_reward, genesis_block_reward, halving_interval, checked_shr, unwrap_or_zero,
}

-- The reward after `k` halvings, as the shift gives it.
abbrev pub shifted : ℕ → ℕ
shifted k = unwrap_or_zero (checked_shr genesis_block_reward k)

half_shift : (k : ℕ) → genesis_block_reward / 2 ^ k / 2 ≡ genesis_block_reward / 2 ^ suc k
half_shift k =
    div-div-eq-div-mul genesis_block_reward (2 ^ k) 2
    ∙ ap (λ d. genesis_block_reward / d) (sym (pow-suc 2 k))

shifted_late : (k : ℕ) → 36 ≤ k → genesis_block_reward / 2 ^ k ≡ 0
shifted_late k h = div-eq_of_lt (omega (arith, pow-le-pow_right {n = 2} (omega arith) h))

pub shifted-suc : (k : ℕ) → shifted (suc k) ≡ shifted k / 2
shifted-suc k = ground (arith, half_shift k, shifted_late k)

-- Below 290,000 * 2^32 epoch blocks the reward is the shift by the number of whole intervals.
pub reward-eq-shifted :
    (height : ℕ)
    → height < halving_interval * 2 ^ 32
    → calculate_block_reward height ≡ shifted (height / halving_interval)
unfolding calculate_block_reward
reward-eq-shifted height h =
    let e : height / halving_interval % 2 ^ 32 ≡ height / halving_interval = omega arith in
    ap shifted e

-- Below 290,000 * (2^32 - 1) epoch blocks, the reward one halving interval later is half the
-- reward, rounded down.
pub calculate_block_reward-halves :
    (height : ℕ)
    → height + halving_interval < halving_interval * 2 ^ 32
    → calculate_block_reward (height + halving_interval) ≡ calculate_block_reward height / 2
calculate_block_reward-halves height h =
    let e : (height + halving_interval) / halving_interval ≡ suc (height / halving_interval) =
      omega arith in
    reward-eq-shifted (height + halving_interval) h
    ∙ ap shifted e
    ∙ shifted-suc (height / halving_interval)
    ∙ ap (λ r. r / 2) (sym (reward-eq-shifted height (omega arith)))

-- From the 36th halving on the reward is zero, as long as the height is below 290,000 * 2^32.
pub calculate_block_reward_exhausted :
    (height : ℕ)
    → 36 * halving_interval ≤ height
    → height < halving_interval * 2 ^ 32
    → calculate_block_reward height ≡ 0
calculate_block_reward_exhausted height late h =
    reward-eq-shifted height h
    ∙ ground (arith, shifted_late (height / halving_interval) (omega arith))

-- The cast to `u32` makes the schedule start again: 290,000 * 2^32 epoch blocks later the reward
-- is the same as now, at every height, whether or not it was exhausted.
pub calculate_block_reward-restarts :
    (height : ℕ)
    → calculate_block_reward (height + halving_interval * 2 ^ 32) ≡ calculate_block_reward height
unfolding calculate_block_reward
calculate_block_reward-restarts height =
    let e : (height + halving_interval * 2 ^ 32) / halving_interval % 2 ^ 32
        ≡ height / halving_interval % 2 ^ 32 =
      omega arith in
    ap shifted e
