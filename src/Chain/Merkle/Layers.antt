-- ===== src/Chain/Merkle/Layers.antt =====
-- The layers of a Merkle tree (`build_next_layer`, the loop of `compute_merkle_root`): lengths and
-- fuel.
use kyvera_core.Prelude.{
  ℕ, zero, suc, ◌+◌, ◌/◌, ◌≤◌, ◌<◌, ◌≡◌, refl, List, [], ◌∷◌, arith, Text, length,
}
use kyvera_core.Chain.Hash.{Hasher}
use kyvera_core.Chain.Merkle.{build_next_layer, reduce_layers}

module _ ⦃h : Hasher⦄ where
  pub length-build_next_layer :
      (layer : List Text) → length (build_next_layer layer) ≡ (length layer + 1) / 2
  unfolding build_next_layer
  length-build_next_layer [] = omega arith
  length-build_next_layer (x ∷ []) = omega arith
  length-build_next_layer (x ∷ (y ∷ rest)) = omega (arith, length-build_next_layer rest)

  -- With fuel for the length of a non-empty layer, the loop ends with exactly one node.
  pub length-reduce_layers :
      (fuel : ℕ) (layer : List Text)
      → 0 < length layer
      → length layer ≤ fuel + 1
      → length (reduce_layers fuel layer) ≡ 1
  unfolding reduce_layers
  length-reduce_layers zero layer nonempty enough = omega arith
  length-reduce_layers (suc fuel) layer nonempty enough =
      ground
        (arith, length-build_next_layer layer, length-reduce_layers fuel (build_next_layer layer))

  -- Fuel beyond what a layer needs does not change the result.
  pub reduce_layers_fuel :
      (fuel more : ℕ) (layer : List Text)
      → length layer ≤ fuel + 1
      → length layer ≤ more + 1
      → reduce_layers fuel layer ≡ reduce_layers more layer
  unfolding reduce_layers
  reduce_layers_fuel zero zero layer p q = refl
  reduce_layers_fuel zero (suc more) layer p q = ground arith
  reduce_layers_fuel (suc fuel) zero layer p q = ground arith
  reduce_layers_fuel (suc fuel) (suc more) layer p q =
      ground (
        arith,
        length-build_next_layer layer,
        reduce_layers_fuel fuel more (build_next_layer layer),
      )
