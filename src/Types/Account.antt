-- ===== src/Types/Account.antt =====
-- src/types/account.rs: accounts and validator tiers. Amounts are `u64` in units of 10^-9 KYV.
pub mod Tier
use kyvera_core.Prelude.{
  ℕ, ◌+◌, ◌%◌, ◌^◌, Bool, true, false, Option, none, some, Text, leb, if◌then◌else◌,
}

abbrev pub u64_mod : ℕ
u64_mod = 2 ^ 64

pub data ValidatorTier : Type 0 where
  igniter kinetic nexus : ValidatorTier

unfoldable pub minimum_stake : ValidatorTier → ℕ
minimum_stake igniter = 500_000_000_000
minimum_stake kinetic = 5_000_000_000_000
minimum_stake nexus = 25_000_000_000_000

unfoldable pub reward_bonus_bps : ValidatorTier → ℕ
reward_bonus_bps igniter = 0
reward_bonus_bps kinetic = 1500
reward_bonus_bps nexus = 3500

unfoldable pub from_staked_balance : ℕ → Option ValidatorTier
unfolding minimum_stake
from_staked_balance staked =
    if leb (minimum_stake nexus) staked
    then some nexus
    else if leb (minimum_stake kinetic) staked
    then some kinetic
    else if leb (minimum_stake igniter) staked
    then some igniter
    else none

pub record Account : Type 0 where
  pub address : Text
  pub balance : ℕ
  pub staked_balance : ℕ
  pub nonce : ℕ
  pub validator_tier : Option ValidatorTier
  pub is_contract : Bool
  pub last_reward_epoch : ℕ

unfoldable pub new : Text → Account
new address = record {
  address = address;
  balance = 0;
  staked_balance = 0;
  nonce = 0;
  validator_tier = none;
  is_contract = false;
  last_reward_epoch = 0;
}

-- The sum wraps as in a release build.
unfoldable pub total_balance : Account → ℕ
total_balance a = (a.balance + a.staked_balance) % u64_mod

unfoldable pub can_afford : Account → ℕ → ℕ → Bool
can_afford a amount fee = leb ((amount + fee) % u64_mod) a.balance

unfoldable pub update_validator_tier : Account → Account
update_validator_tier a = record a { validator_tier = from_staked_balance a.staked_balance }

unfoldable pub is_validator : Account → Bool
is_validator a = elim a.validator_tier [ none ↦ false | some t ↦ true ]
