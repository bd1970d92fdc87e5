-- ===== src/Consensus/Validators/Shares.antt =====
-- The shares of `distribute_validator_rewards` against what is distributed.
use native.Mathlib.Nat.{
  add-mul, mul-add, div-mul-le_self, mul-le-mul_right, mod-le, le_of_mul-le-mul_right,
}
use kyvera_core.Prelude.{ℕ, ◌+◌, ◌*◌, ◌/◌, ◌^◌, ◌≤◌, ◌<◌, ◌≡◌, refl, List, [], ◌∷◌, Text, arith}
use kyvera_core.Types.Account.{u64_mod}
use kyvera_core.Consensus.Validators.{share_of, sum_weights}

-- The sum of the shares.
unfoldable pub shares : ℕ → ℕ → List (Text × ℕ) → ℕ
shares total_share total_weight [] = 0
shares total_share total_weight ((address, weight) ∷ rest) =
    share_of total_share total_weight weight + shares total_share total_weight rest

-- The sum of the weights, without a bound.
unfoldable pub weight_total : List (Text × ℕ) → ℕ
weight_total [] = 0
weight_total ((address, weight) ∷ rest) = weight + weight_total rest

share_of_le : (t w weight : ℕ) → share_of t w weight * w ≤ t * weight
unfolding share_of
share_of_le t w weight =
    omega
      (arith, div-mul-le_self (t * weight) w, mul-le-mul_right w (mod-le (t * weight / w) u64_mod))

shares_le :
    (t w : ℕ) (weights : List (Text × ℕ)) → shares t w weights * w ≤ t * weight_total weights
unfolding shares weight_total
shares_le t w [] = omega arith
shares_le t w ((a, x) ∷ rest) = omega (
  arith,
  add-mul (share_of t w x) (shares t w rest) w,
  mul-add t x (weight_total rest),
  share_of_le t w x,
  shares_le t w rest,
)

sum_weights-eq :
    (weights : List (Text × ℕ))
    → weight_total weights < 2 ^ 128
    → sum_weights weights ≡ weight_total weights
unfolding sum_weights weight_total
sum_weights-eq [] h = refl
sum_weights-eq ((a, x) ∷ rest) h = rw (sum_weights-eq rest (omega arith)) (omega arith)

-- Where the weights sum to a positive number below 2^128, the shares of them sum to at most the
-- total share.
pub shares_bounded :
    (t : ℕ) (weights : List (Text × ℕ))
    → weight_total weights < 2 ^ 128
    → 0 < sum_weights weights
    → shares t (sum_weights weights) weights ≤ t
shares_bounded t weights h positive =
    le_of_mul-le-mul_right {k = sum_weights weights}
      (rw (sum_weights-eq weights h) (shares_le t (weight_total weights) weights)) positive
