-- ===== src/Examples/Hashing.antt =====
-- Hashes, proofs and mining on a small hasher that puts a zero digit before its input.
use kyvera_core.Prelude.{◌≡◌, refl, true, false, List, [], ◌∷◌, some, arith, Text, codes}
use kyvera_core.Prelude.Int.{pos}
use kyvera_core.Types.Block.{BlockHeader}
use kyvera_core.Chain.Hash.{Hasher}
use kyvera_core.Chain.Merkle.{MerkleProof, compute_merkle_root, generate_proof, verify_proof}
use kyvera_core.Chain.Merkle.Proofs.{verify_proof-generate_proof}
use kyvera_core.Chain.Merkle.Duplicates.{compute_merkle_root_duplicate}
use kyvera_core.Chain.Mining.{mine_block}
use kyvera_core.Chain.Mining.Search.{Outcome, mine_block-Outcome}

instance abbrev pub toy_hasher : Hasher
toy_hasher = record { digest = λ s. b'0' ∷ s; hex_encode = λ s. s }

abbrev three_hashes : List Text
three_hashes = codes "aa" ∷ codes "bb" ∷ codes "cc" ∷ []

abbrev header : BlockHeader
header = record {
  index = 0;
  timestamp = pos 7;
  previous_hash = codes "aa";
  merkle_root = codes "bb";
  nonce = 0;
  difficulty = 1;
  is_epoch_block = false;
  epoch_index = 0;
  state_root = [];
}

verify_proof-generate_proof_example :
    (proof : MerkleProof) × (generate_proof three_hashes (codes "cc") ≡ some proof)
    × (verify_proof proof ≡ true)
    × (proof.leaf_hash ≡ codes "cc")
    × (proof.root ≡ compute_merkle_root three_hashes)
verify_proof-generate_proof_example = verify_proof-generate_proof three_hashes 2 (omega arith)

compute_merkle_root_duplicate_example :
    compute_merkle_root (codes "aa" ∷ codes "bb" ∷ codes "cc" ∷ [])
    ≡ compute_merkle_root (codes "aa" ∷ codes "bb" ∷ codes "cc" ∷ codes "cc" ∷ [])
compute_merkle_root_duplicate_example =
    compute_merkle_root_duplicate (codes "aa" ∷ codes "bb" ∷ []) (codes "cc") refl (omega arith)

mine_block-Outcome_example : Outcome header 0 5 (mine_block header 5)
mine_block-Outcome_example = mine_block-Outcome header 5
