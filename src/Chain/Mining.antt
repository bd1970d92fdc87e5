-- ===== src/Chain/Mining.antt =====
-- src/chain/mining.rs: block rewards, the search for a nonce, the difficulty adjustment.
-- `estimate_hash_rate` computes with floats for display and is not modelled.
pub mod Reward
pub mod Search
pub mod Adjustment
use kyvera_core.Prelude.{
  ℕ, zero, suc, ◌+◌, ◌-◌, ◌*◌, ◌/◌, ◌%◌, ◌^◌, Bool, true, false, Option, none, some, List, [], ◌∷◌,
  Text, ltb, if◌then◌else◌, length, drop, min,
}
use kyvera_core.Prelude.Int.{ℤ, pos, ltb_ℤ, ◌-ℤ◌, div_ℤ}
use kyvera_core.Types.Block.{BlockHeader}
use kyvera_core.Chain.Hash.{Hasher, hash_block_header, meets_difficulty}

abbrev pub kyv_units : ℕ
kyv_units = 1_000_000_000

abbrev pub genesis_block_reward : ℕ
genesis_block_reward = 50 * kyv_units

abbrev pub halving_interval : ℕ
halving_interval = 290_000

abbrev pub epoch_block_target_seconds : ℕ
epoch_block_target_seconds = 600

abbrev pub micro_block_target_seconds : ℕ
micro_block_target_seconds = 3

abbrev pub difficulty_window : ℕ
difficulty_window = 144

abbrev pub min_difficulty : ℕ
min_difficulty = 1

abbrev pub max_difficulty : ℕ
max_difficulty = 64

-- `u64::checked_shr`.
abbrev pub checked_shr : ℕ → ℕ → Option ℕ
checked_shr x k = if ltb k 64 then some (x / 2 ^ k) else none

abbrev pub unwrap_or_zero : Option ℕ → ℕ
unwrap_or_zero none = 0
unwrap_or_zero (some n) = n

-- `halving_count as u32` keeps the low 32 bits.
unfoldable pub calculate_block_reward : ℕ → ℕ
calculate_block_reward epoch_block_height =
    let halving_count = epoch_block_height / halving_interval in
    unwrap_or_zero (checked_shr genesis_block_reward (halving_count % 2 ^ 32))

pub record MinedBlock : Type 0 where
  pub nonce : ℕ
  pub hash : Text
  pub attempts : ℕ

module _ ⦃h : Hasher⦄ where
  -- The hash of a header with another nonce.
  unfoldable pub hash_with_nonce : BlockHeader → ℕ → Text
  hash_with_nonce header nonce =
      hash_block_header header.index header.timestamp header.previous_hash header.merkle_root nonce
        header.difficulty header.is_epoch_block header.epoch_index header.state_root

  -- The `while` loop, over the attempts that are left.
  unfoldable pub mine_from : BlockHeader → ℕ → ℕ → Option MinedBlock
  mine_from header zero nonce = none
  mine_from header (suc left) nonce =
      let rest = mine_from header left (nonce + 1) in
      let hash = hash_with_nonce header nonce in
      if meets_difficulty hash header.difficulty
      then some (record { nonce = nonce; hash = hash; attempts = nonce + 1 })
      else rest

  unfoldable pub mine_block : BlockHeader → ℕ → Option MinedBlock
  mine_block header max_attempts = mine_from header max_attempts 0

  unfoldable pub verify_proof_of_work : Text → ℕ → Bool
  verify_proof_of_work hash difficulty = meets_difficulty hash difficulty

-- `recent.first()` and `recent.last()` of a slice with at least two elements.
abbrev pub first_or {ℓ} : {A : Type ℓ} → List A → A → A
first_or [] d = d
first_or (x ∷ xs) d = x

abbrev pub last_or {ℓ} : {A : Type ℓ} → List A → A → A
last_or [] d = d
last_or (x ∷ xs) d = last_or xs x

unfoldable pub target_seconds : Bool → ℕ
target_seconds true = epoch_block_target_seconds
target_seconds false = micro_block_target_seconds

-- The average over the window: `elapsed / block_count`, towards zero.
unfoldable pub average_seconds : List ℤ → ℤ
average_seconds timestamps =
    let window = min (length timestamps) difficulty_window in
    let recent = drop (length timestamps - window) timestamps in
    div_ℤ (last_or recent (pos 0) -ℤ first_or recent (pos 0)) (length recent - 1)

unfoldable pub clamp : ℕ → ℕ
clamp d =
    if ltb d min_difficulty
    then min_difficulty
    else if ltb max_difficulty d
    then max_difficulty
    else d

-- The five branches on the average; `u32` addition wraps, and `saturating_sub` stops at 0.
unfoldable pub adjust : ℕ → ℤ → ℕ → ℕ
adjust current average target =
    if ltb_ℤ average (pos (target / 2))
    then (current + 1) % 2 ^ 32
    else if ltb_ℤ average (pos target)
    then (current + 1) % 2 ^ 32
    else if ltb_ℤ (pos (target * 2)) average
    then current - 1
    else if ltb_ℤ (pos target) average
    then current - 1
    else current

unfoldable pub calculate_next_difficulty : ℕ → List ℤ → Bool → ℕ
unfolding target_seconds clamp adjust
calculate_next_difficulty current timestamps is_epoch_block =
    if ltb (length timestamps) 2
    then current
    else clamp (adjust current (average_seconds timestamps) (target_seconds is_epoch_block))
