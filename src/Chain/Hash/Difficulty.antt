-- ===== src/Chain/Hash/Difficulty.antt =====
-- The difficulty test against the number of leading zeros.
use kyvera_core.Prelude.{ℕ, zero, suc, ◌≤◌, ◌≡◌, ◌↔◌, true, [], ◌∷◌, arith, Text}
use kyvera_core.Chain.Hash.{meets_difficulty, count_leading_zeros}

-- A hash meets a difficulty exactly when it has at least that many leading zero digits.
pub meets_difficulty_iff :
    (hash : Text) (difficulty : ℕ)
    → (meets_difficulty hash difficulty ≡ true) ↔ (difficulty ≤ count_leading_zeros hash)
unfolding meets_difficulty count_leading_zeros
meets_difficulty_iff [] zero = ground arith
meets_difficulty_iff [] (suc d) = ground arith
meets_difficulty_iff (c ∷ s) zero = ground arith
meets_difficulty_iff (c ∷ s) (suc d) = ground (arith, meets_difficulty_iff s d)
