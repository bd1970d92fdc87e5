-- ===== src/Chain/Merkle/Proofs.antt =====
-- Inclusion proofs: `generate_proof` against `verify_proof`.
use kyvera_core.Prelude.{
  ℕ, zero, suc, ◌+◌, ◌/◌, ◌≤◌, ◌<◌, ◌≡◌, inl, inr, refl, sym, ap, ◌∙◌, true, some, List, [], ◌∷◌,
  arith, Text, text_eq, text_eq_sound, text_eq_refl, ltb, length, Bool-cases,
}
use kyvera_core.Chain.Hash.{Hasher}
use kyvera_core.Chain.Merkle.{
  MerkleProof, ProofDirection, left, right, at_or_empty, position, sibling_index, direction,
  hash_pair, build_next_layer, reduce_layers, compute_merkle_root, collect_siblings, generate_proof,
  fold_siblings, verify_proof,
}
use kyvera_core.Chain.Merkle.Layers.{length-build_next_layer}

sibling_index-suc-suc :
    (i n : ℕ) → i < n → sibling_index (suc (suc i)) (suc (suc n)) ≡ suc (suc (sibling_index i n))
unfolding sibling_index
sibling_index-suc-suc i n h = ground arith

direction-suc-suc : (i : ℕ) → direction (suc (suc i)) ≡ direction i
unfolding direction
direction-suc-suc i = ground arith

direction_zero : direction 0 ≡ right
unfolding direction
direction_zero = refl

sibling_index_zero : (n : ℕ) → sibling_index 0 (suc (suc n)) ≡ 1
unfolding sibling_index
sibling_index_zero n = ground arith

sibling_index_lone : sibling_index 0 1 ≡ 0
unfolding sibling_index
sibling_index_lone = refl

half-suc-suc : (i : ℕ) → suc (suc i) / 2 ≡ suc (i / 2)
half-suc-suc i = omega arith

-- A position found is in range and holds the target.
position_found :
    (xs : List Text) (target : Text) (i : ℕ)
    → position xs target ≡ some i
    → (i < length xs) × (at_or_empty xs i ≡ target)
unfolding position
position_found [] target i h = cc
position_found (x ∷ xs) target zero h = ground (arith, text_eq_sound x target)
position_found (x ∷ xs) target (suc i) h = ground (arith, position_found xs target i)

-- A text in the list is found.
position_total :
    (xs : List Text) (i : ℕ) → i < length xs → (j : ℕ) × (position xs (at_or_empty xs i) ≡ some j)
unfolding position
position_total [] i lt = elim lt [ ]
position_total (x ∷ xs) zero lt = (0, rw (text_eq_refl x))
position_total (x ∷ xs) (suc i) lt = elim (Bool-cases (text_eq x (at_or_empty xs i))) [
  | inl same ↦ (0, rw same)
  | inr other ↦ let (j, e) = position_total xs i (omega arith) in (suc j, rw other (rw e))
]

module _ ⦃h : Hasher⦄ where
  -- A node with its sibling, in the order that the direction says.
  pair_towards : ProofDirection → Text → Text → Text
  pair_towards right node sibling = hash_pair node sibling
  pair_towards left node sibling = hash_pair sibling node

  fold_siblings-cons :
      (d : ProofDirection) (node sibling : Text) (rest : List (Text × ProofDirection))
      → fold_siblings node ((sibling, d) ∷ rest) ≡ fold_siblings (pair_towards d node sibling) rest
  unfolding fold_siblings pair_towards
  fold_siblings-cons right node sibling rest = refl
  fold_siblings-cons left node sibling rest = refl

  -- The parent of a node is the hash of the node and its sibling.
  build_next_layer_at :
      (layer : List Text) (i : ℕ)
      → i < length layer
      → at_or_empty (build_next_layer layer) (i / 2)
        ≡ pair_towards
            (direction i)
            (at_or_empty layer i)
            (at_or_empty layer (sibling_index i (length layer)))
  unfolding build_next_layer pair_towards
  build_next_layer_at [] i lt = elim lt [ ]
  build_next_layer_at (x ∷ []) zero lt = rw (direction_zero, sibling_index_lone)
  build_next_layer_at (x ∷ []) (suc i) lt = absurd (omega arith)
  build_next_layer_at (x ∷ (y ∷ rest)) zero lt =
      rw (direction_zero, sibling_index_zero (length rest))
  build_next_layer_at (x ∷ (y ∷ rest)) (suc zero) lt = unfold direction sibling_index in refl
  build_next_layer_at (x ∷ (y ∷ rest)) (suc (suc i)) lt =
      rw (half-suc-suc i, direction-suc-suc i, sibling_index-suc-suc i (length rest) (omega arith))
        (build_next_layer_at rest i (omega arith))

  -- The siblings collected from a node lead to the root of its layer.
  fold-collect_siblings :
      (fuel : ℕ) (layer : List Text) (i : ℕ)
      → i < length layer
      → length layer ≤ fuel + 1
      → fold_siblings (at_or_empty layer i) (collect_siblings fuel layer i)
        ≡ at_or_empty (reduce_layers fuel layer) 0
  unfolding collect_siblings reduce_layers
  fold-collect_siblings zero layer i lt enough =
      let e : i ≡ 0 = omega arith in unfold fold_siblings in ap (at_or_empty layer) e
  fold-collect_siblings (suc fuel) layer i lt enough = elim (Bool-cases (ltb 1 (length layer))) [
    | inl more ↦ rw more (
        fold_siblings-cons (direction i) (at_or_empty layer i)
          (at_or_empty layer (sibling_index i (length layer)))
          (collect_siblings fuel (build_next_layer layer) (i / 2))
        ∙ ap (λ node. fold_siblings node (collect_siblings fuel (build_next_layer layer) (i / 2)))
            (sym (build_next_layer_at layer i lt))
        ∙ fold-collect_siblings fuel (build_next_layer layer) (i / 2)
            (omega (arith, length-build_next_layer layer))
            (ground (arith, length-build_next_layer layer)))
    | inr done ↦
        rw done (let e : i ≡ 0 = ground arith in unfold fold_siblings in ap (at_or_empty layer) e)
  ]

  -- The root of a list that is not empty, by the loop alone.
  pub compute_merkle_root-nonempty :
      (layer : List Text)
      → 0 < length layer
      → compute_merkle_root layer ≡ at_or_empty (reduce_layers (length layer) layer) 0
  unfolding compute_merkle_root
  compute_merkle_root-nonempty [] lt = elim lt [ ]
  compute_merkle_root-nonempty (x ∷ []) lt = refl
  compute_merkle_root-nonempty (x ∷ (y ∷ rest)) lt = ground arith

  generate_proof_at :
      (hashes : List Text) (target : Text) (i : ℕ)
      → position hashes target ≡ some i
      → generate_proof hashes target
        ≡ some (record {
          leaf_hash = target;
          siblings = collect_siblings (length hashes) hashes i;
          root = compute_merkle_root hashes;
        })
  unfolding generate_proof
  generate_proof_at hashes target i e = rw (e, generate_proof)

  -- Every hash in the list, at whatever index, gets a proof; the proof is for that hash and the
  -- Merkle root of the list, and it verifies.
  pub verify_proof-generate_proof :
      (hashes : List Text) (i : ℕ)
      → i < length hashes
      → (proof : MerkleProof) × (generate_proof hashes (at_or_empty hashes i) ≡ some proof)
        × (verify_proof proof ≡ true)
        × (proof.leaf_hash ≡ at_or_empty hashes i)
        × (proof.root ≡ compute_merkle_root hashes)
  unfolding verify_proof
  verify_proof-generate_proof hashes i lt =
      let (j, e) = position_total hashes i lt in
      let (jlt, at) = position_found hashes (at_or_empty hashes i) j e in
      let folded : fold_siblings (at_or_empty hashes i) (collect_siblings (length hashes) hashes j)
          ≡ compute_merkle_root hashes =
        ap (λ leaf. fold_siblings leaf (collect_siblings (length hashes) hashes j)) (sym at)
        ∙ fold-collect_siblings (length hashes) hashes j jlt (omega arith)
        ∙ sym (compute_merkle_root-nonempty hashes (omega arith)) in
      (
        _,
        generate_proof_at hashes (at_or_empty hashes i) j e,
        rw folded (text_eq_refl (compute_merkle_root hashes)),
        refl,
        refl,
      )
