-- ===== src/Chain/Merkle.antt =====
-- src/chain/merkle.rs: Merkle roots and inclusion proofs. The two `while` loops run on fuel, the
-- length of the layer, which is enough, since each layer has half the length of the one below.
pub mod Layers
pub mod Proofs
pub mod Duplicates
use kyvera_core.Prelude.{
  ℕ, zero, suc, ◌+◌, ◌-◌, ◌/◌, ◌%◌, Bool, Option, none, some, List, [], ◌∷◌, ◌++◌, Text, text_eq,
  codes, ltb, ◌==◌, if◌then◌else◌, length, get_elem?,
}
use mathlib.Core.Option
use kyvera_core.Chain.Hash.{Hasher, sha3_256_hex}

pub data ProofDirection : Type 0 where
  left right : ProofDirection

pub record MerkleProof : Type 0 where
  pub leaf_hash : Text
  pub siblings : List (Text × ProofDirection)
  pub root : Text

-- `layer[i]`; the program indexes within the layer only.
abbrev pub at_or_empty : List Text → ℕ → Text
at_or_empty [] i = []
at_or_empty (x ∷ xs) zero = x
at_or_empty (x ∷ xs) (suc i) = at_or_empty xs i

-- `iter().position(|h| h == target)`.
unfoldable pub position : List Text → Text → Option ℕ
position [] target = none
position (x ∷ xs) target = if text_eq x target then some 0 else Option.map suc (position xs target)

unfoldable pub sibling_index : ℕ → ℕ → ℕ
sibling_index index len =
    if index % 2 == 0 then (if ltb (index + 1) len then index + 1 else index) else index - 1

unfoldable pub direction : ℕ → ProofDirection
direction index = if index % 2 == 0 then right else left

module _ ⦃h : Hasher⦄ where
  unfoldable pub hash_pair : Text → Text → Text
  hash_pair l r = sha3_256_hex (l ++ r)

  -- The last node of an odd layer is paired with itself.
  unfoldable pub build_next_layer : List Text → List Text
  build_next_layer [] = []
  build_next_layer (x ∷ []) = hash_pair x x ∷ []
  build_next_layer (x ∷ (y ∷ rest)) = hash_pair x y ∷ build_next_layer rest

  -- `while current_layer.len() > 1 { current_layer = build_next_layer(&current_layer); }`
  unfoldable pub reduce_layers : ℕ → List Text → List Text
  reduce_layers zero layer = layer
  reduce_layers (suc fuel) layer =
      let rest = reduce_layers fuel (build_next_layer layer) in
      if ltb 1 (length layer) then rest else layer

  unfoldable pub compute_merkle_root : List Text → Text
  unfolding reduce_layers
  compute_merkle_root transaction_hashes =
      if length transaction_hashes == 0
      then sha3_256_hex (codes "kyvera-empty-block")
      else if length transaction_hashes == 1
      then at_or_empty transaction_hashes 0
      else at_or_empty (reduce_layers (length transaction_hashes) transaction_hashes) 0

  -- The loop of `generate_proof`: the siblings from a layer up to the root.
  unfoldable pub collect_siblings : ℕ → List Text → ℕ → List (Text × ProofDirection)
  unfolding sibling_index direction
  collect_siblings zero layer index = []
  collect_siblings (suc fuel) layer index =
      let sibling = at_or_empty layer (sibling_index index (length layer)) in
      let rest = collect_siblings fuel (build_next_layer layer) (index / 2) in
      if ltb 1 (length layer) then (sibling, direction index) ∷ rest else []

  unfoldable pub generate_proof : List Text → Text → Option MerkleProof
  generate_proof transaction_hashes target_hash = elim (position transaction_hashes target_hash) [
    | none ↦ none
    | some index ↦ some (record {
      leaf_hash = target_hash;
      siblings = collect_siblings (length transaction_hashes) transaction_hashes index;
      root = compute_merkle_root transaction_hashes;
    })
  ]

  unfoldable pub fold_siblings : Text → List (Text × ProofDirection) → Text
  fold_siblings current [] = current
  fold_siblings current ((sibling, right) ∷ rest) = fold_siblings (hash_pair current sibling) rest
  fold_siblings current ((sibling, left) ∷ rest) = fold_siblings (hash_pair sibling current) rest

  unfoldable pub verify_proof : MerkleProof → Bool
  unfolding fold_siblings
  verify_proof proof = text_eq (fold_siblings proof.leaf_hash proof.siblings) proof.root
