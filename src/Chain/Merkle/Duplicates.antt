-- ===== src/Chain/Merkle/Duplicates.antt =====
-- The Merkle root of a list whose last hash is repeated.
use kyvera_core.Prelude.{
  ℕ, zero, suc, ◌+◌, ◌%◌, ◌≤◌, ◌<◌, ◌≡◌, refl, sym, ap, ◌∙◌, List, [], ◌∷◌, ◌++◌, arith, Text,
  length, length-append,
}
use kyvera_core.Chain.Hash.{Hasher}
use kyvera_core.Chain.Merkle.{at_or_empty, build_next_layer, reduce_layers, compute_merkle_root}
use kyvera_core.Chain.Merkle.Layers.{length-build_next_layer, reduce_layers_fuel}
use kyvera_core.Chain.Merkle.Proofs.{compute_merkle_root-nonempty}

module _ ⦃h : Hasher⦄ where
  build_next_layer_duplicate :
      (xs : List Text) (x : Text)
      → length xs % 2 ≡ 0
      → build_next_layer (xs ++ x ∷ []) ≡ build_next_layer (xs ++ x ∷ x ∷ [])
  unfolding build_next_layer
  build_next_layer_duplicate [] x even = refl
  build_next_layer_duplicate (a ∷ []) x even = absurd (omega arith)
  build_next_layer_duplicate (a ∷ (b ∷ xs)) x even =
      rw (build_next_layer_duplicate xs x (omega arith))

  reduce_layers-step :
      (fuel : ℕ) (layer : List Text)
      → 1 < length layer
      → length layer ≤ fuel + 1
      → reduce_layers fuel layer ≡ reduce_layers fuel (build_next_layer layer)
  unfolding reduce_layers
  reduce_layers-step zero layer two enough = absurd (omega arith)
  reduce_layers-step (suc fuel) layer two enough = ground (
    arith,
    length-build_next_layer layer,
    reduce_layers_fuel fuel (suc fuel) (build_next_layer layer),
  )

  -- For a non-empty list of even length and one more hash, the list that ends in that hash once
  -- has the same Merkle root as the list that ends in it twice.
  pub compute_merkle_root_duplicate :
      (xs : List Text) (x : Text)
      → length xs % 2 ≡ 0
      → 0 < length xs
      → compute_merkle_root (xs ++ x ∷ []) ≡ compute_merkle_root (xs ++ x ∷ x ∷ [])
  compute_merkle_root_duplicate xs x even nonempty =
      let once = xs ++ x ∷ [] in
      let twice = xs ++ x ∷ x ∷ [] in
      let n : length once ≡ length xs + 1 = length-append xs (x ∷ []) in
      let m : length twice ≡ length xs + 2 = length-append xs (x ∷ x ∷ []) in
      compute_merkle_root-nonempty once (omega arith)
      ∙ ap (λ layer. at_or_empty layer 0)
          (reduce_layers-step (length once) once (omega arith) (omega arith)
            ∙ ap (reduce_layers (length once)) (build_next_layer_duplicate xs x even)
            ∙ reduce_layers_fuel (length once) (length twice) (build_next_layer twice)
                (omega (arith, length-build_next_layer twice))
                (omega (arith, length-build_next_layer twice))
            ∙ sym (reduce_layers-step (length twice) twice (omega arith) (omega arith)))
      ∙ sym (compute_merkle_root-nonempty twice (omega arith))
