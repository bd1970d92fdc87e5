-- ===== src/Types/Account/Tier.antt =====
-- The tier of a stake (`ValidatorTier::from_staked_balance`) against the minimum stakes.
use kyvera_core.Prelude.{ℕ, ◌≤◌, ◌↔◌, Option, none, some, arith}
use kyvera_core.Types.Account.{
  ValidatorTier, igniter, kinetic, nexus, minimum_stake, from_staked_balance,
}

-- The order of the tiers, lowest first; no tier ranks below them all.
unfoldable pub tier_rank : Option ValidatorTier → ℕ
tier_rank none = 0
tier_rank (some igniter) = 1
tier_rank (some kinetic) = 2
tier_rank (some nexus) = 3

-- For every tier and stake, the tier assigned to the stake ranks at or above the given tier exactly
-- when the stake reaches that tier's minimum.
pub from_staked_balance_iff :
    (t : ValidatorTier) (staked : ℕ)
    → (tier_rank (some t) ≤ tier_rank (from_staked_balance staked)) ↔ (minimum_stake t ≤ staked)
unfolding from_staked_balance tier_rank
from_staked_balance_iff igniter staked = ground arith
from_staked_balance_iff kinetic staked = ground arith
from_staked_balance_iff nexus staked = ground arith
