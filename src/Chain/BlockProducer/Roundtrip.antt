-- ===== src/Chain/BlockProducer/Roundtrip.antt =====
-- `produce_micro_block` against `validate_block`.
use kyvera_core.Prelude.{
  ℕ, ◌≡◌, false, some, List, Text, text_eq_refl, ok, Option-cases, ==_refl, subst, inl, inr, ◌+◌,
  ◌%◌,
}
use kyvera_core.Prelude.Int.{ℤ, pos, ltb_ℤ, ◌+ℤ◌}
use kyvera_core.Types.Account.{u64_mod}
use kyvera_core.Types.Transaction.{Transaction}
use kyvera_core.Types.Block.{BlockHeader, Block, new, new_header}
use kyvera_core.Chain.Hash.{Hasher}
use kyvera_core.Chain.Merkle.{compute_merkle_root}
use kyvera_core.Chain.Mining.{MinedBlock, mine_block, hash_with_nonce, verify_proof_of_work}
use kyvera_core.Chain.Mining.Search.{Outcome, mine_block-Outcome}
use kyvera_core.Chain.BlockProducer.{
  ChainTip, hashes_of, mine_and_seal, micro_header, seal, produce_micro_block, validate_block,
}

module _ ⦃h : Hasher⦄ where
  -- The conditions on the two clocks: the block is not older than the tip, and the validator's
  -- clock is at most two minutes behind the producer's.
  abbrev pub InTime : ℤ → ℤ → ChainTip → Type 0
  InTime made now tip =
      (ltb_ℤ made tip.timestamp ≡ false) × (ltb_ℤ (now +ℤ pos 120_000) made ≡ false)

  mined-Outcome :
      (header : BlockHeader) (n : ℕ) (m : MinedBlock)
      → mine_block header n ≡ some m
      → Outcome header 0 n (some m)
  mined-Outcome header n m e = subst (Outcome header 0 n) e (mine_block-Outcome header n)

  -- A header that continues the tip with the root of the transactions passes once it is sealed.
  validate_block-sealed :
      (made now : ℤ) (transactions : List Transaction) (tip : ChainTip) (miner : Text)
      (max_attempts : ℕ) (m : MinedBlock)
      → InTime made now tip
      → Outcome (micro_header made transactions tip) 0 max_attempts (some m)
      → validate_block now
          (seal (micro_header made transactions tip) (hashes_of transactions) miner 0 m)
          tip
          transactions
        ≡ ok tt
  unfolding validate_block verify_proof_of_work seal new micro_header new_header hash_with_nonce
  validate_block-sealed made now transactions tip miner max_attempts m (after, before) out = rw (
    ==_refl ((tip.height + 1) % u64_mod),
    text_eq_refl tip.hash,
    out.hit,
    after,
    before,
    text_eq_refl (compute_merkle_root (hashes_of transactions)),
    out.hashed,
    text_eq_refl (hash_with_nonce (micro_header made transactions tip) m.nonce),
  )

  -- A micro block that is produced on a tip passes the check against that tip with the same
  -- transactions, provided that its time is not before the tip's and at most 120 seconds ahead of
  -- the checking node's clock.
  pub validate_block-produce_micro_block :
      (made now : ℤ) (transactions : List Transaction) (tip : ChainTip) (miner : Text)
      (max_attempts : ℕ) (block : Block)
      → InTime made now tip
      → produce_micro_block made transactions tip miner max_attempts ≡ ok block
      → validate_block now block tip transactions ≡ ok tt
  unfolding produce_micro_block mine_and_seal
  validate_block-produce_micro_block made now transactions tip miner max_attempts block time h =
      elim (Option-cases (mine_block header max_attempts)) [
        | inl none_found ↦ absurd (cc (none_found, h))
        | inr (m, found) ↦
            subst (λ b. validate_block now b tip transactions ≡ ok tt)
              (let e : seal header (hashes_of transactions) miner 0 m ≡ block = cc (found, h) in e)
              (validate_block-sealed made now transactions tip miner max_attempts m time
                (mined-Outcome header max_attempts m found))
      ]
    where
      header : BlockHeader
      header = micro_header made transactions tip
