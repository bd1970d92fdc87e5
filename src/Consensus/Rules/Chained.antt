-- ===== src/Consensus/Rules/Chained.antt =====
-- `validate_block_rules`: the chaining of an accepted block, and the genesis block.
use kyvera_core.Prelude.{
  ℕ, ◌+◌, ◌%◌, ◌^◌, ◌-◌, ◌≡◌, refl, subst, inl, inr, Bool, true, false, some, List, [], ◌∷◌, Text,
  text_eq, text_eq_sound, text_eq_refl, Option-cases, Bool-cases, ok, then_ok, ensure_ok, arith,
  ◌==◌,
}
use kyvera_core.Prelude.Int.{ℤ}
use kyvera_core.Types.Account.{u64_mod}
use kyvera_core.Types.Transaction.{Transaction}
use kyvera_core.Types.Block.{BlockHeader, Block, new, new_header}
use kyvera_core.Chain.Hash.{Hasher, meets_difficulty}
use kyvera_core.Chain.Merkle.{compute_merkle_root}
use kyvera_core.Chain.Mining.{
  MinedBlock, calculate_block_reward, mine_block, hash_with_nonce, genesis_block_reward,
}
use kyvera_core.Chain.Mining.Search.{Outcome, mine_block-Outcome}
use kyvera_core.Chain.BlockProducer.{
  ChainTip, zero_hash, genesis_header, hashes_of, seal, mine_and_seal, produce_genesis_block,
}
use kyvera_core.Storage.Store.{Store}
use kyvera_core.Consensus.Coinbase.{coinbase_sender, verify_coinbase}
use kyvera_core.Consensus.Rules.{
  check_height, check_previous_hash, check_previous_hash_genesis, check_block_size, check_timestamp,
  check_proof_of_work, check_block_hash, check_merkle_root, check_epoch_index, check_block_reward,
  check_coinbase, check_no_coinbase, check_kind, check_genesis, check_transactions,
  validate_block_rules,
}

-- No transaction is sent by the coinbase sentinel.
abbrev pub NoCoinbase : List Transaction → Type 0
NoCoinbase [] = Unit
NoCoinbase (tx ∷ rest) = (text_eq tx.sender coinbase_sender ≡ false) × NoCoinbase rest

check_no_coinbase-NoCoinbase :
    (transactions : List Transaction)
    → check_no_coinbase transactions ≡ ok tt
    → NoCoinbase transactions
unfolding check_no_coinbase
check_no_coinbase-NoCoinbase [] e = tt
check_no_coinbase-NoCoinbase (tx ∷ rest) e = elim (Bool-cases (text_eq tx.sender coinbase_sender)) [
  | inl coinbase ↦ absurd (cc (e, coinbase))
  | inr plain ↦ (plain, check_no_coinbase-NoCoinbase rest (rw plain at e))
]

module _ ⦃h : Hasher⦄ where
  -- The first transaction is a coinbase that verifies for the block.
  abbrev pub PaidFirst : Block → List Transaction → Type 0
  PaidFirst block [] = ⊥
  PaidFirst block (coinbase ∷ rest) =
      verify_coinbase coinbase block.header.epoch_index block.hash ≡ true

  -- What the kind of a block asks for.
  abbrev pub KindMet : Bool → Block → List Transaction → ChainTip → Type 0
  KindMet true block transactions tip =
      (block.header.epoch_index ≡ (tip.epoch_index + 1) % u64_mod)
      × (block.block_reward ≡ calculate_block_reward block.header.epoch_index)
      × PaidFirst block transactions
  KindMet false block transactions tip = NoCoinbase transactions

  -- The block follows the tip, is sealed by its work, and commits to the transactions.
  pub record Chained (block : Block) (transactions : List Transaction) (tip : ChainTip)
      : Type 0 where
    pub next : block.header.index ≡ (tip.height + 1) % u64_mod
    pub linked : block.header.previous_hash ≡ tip.hash
    pub worked : meets_difficulty block.hash block.header.difficulty ≡ true
    pub sealed : hash_with_nonce block.header block.header.nonce ≡ block.hash
    pub committed : compute_merkle_root (hashes_of transactions) ≡ block.header.merkle_root
    pub kind : KindMet block.header.is_epoch_block block transactions tip

  check_coinbase-PaidFirst :
      (block : Block) (transactions : List Transaction)
      → check_coinbase block transactions ≡ ok tt
      → PaidFirst block transactions
  unfolding check_coinbase
  check_coinbase-PaidFirst block [] e = absurd (cc (e))
  check_coinbase-PaidFirst block (coinbase ∷ rest) e = ensure_ok _ _ (then_ok _ _ tt e).1

  check_kind-KindMet :
      (block : Block) (transactions : List Transaction) (tip : ChainTip) (is_epoch : Bool)
      → block.header.is_epoch_block ≡ is_epoch
      → check_kind block transactions tip ≡ ok tt
      → KindMet is_epoch block transactions tip
  unfolding check_kind check_epoch_index check_block_reward
  check_kind-KindMet block transactions tip true kind e =
      let (index, more) = then_ok (check_epoch_index block tip) _ tt (rw kind at e) in
      let (reward, paid) = then_ok (check_block_reward block) _ tt more in
      (
        ground (arith, ensure_ok _ _ index),
        ground (arith, ensure_ok _ _ reward),
        check_coinbase-PaidFirst block transactions paid,
      )
  check_kind-KindMet block transactions tip false kind e =
      check_no_coinbase-NoCoinbase transactions (rw kind at e)

  -- For a block whose index is not 0 and any time and store: a block that the rules accept has the
  -- height after the tip's, points to the tip's hash, has a hash that meets its difficulty and is the
  -- hash of its header, and has the Merkle root of the transactions. An epoch block also has the
  -- next epoch index, the scheduled reward and a valid coinbase first; a micro block has no coinbase.
  pub validate_block_rules-Chained :
      {S : Type 0} ⦃store : Store S⦄ (now : ℤ) (block : Block) (transactions : List Transaction)
      (tip : ChainTip) (db : S)
      → (block.header.index == 0) ≡ false
      → validate_block_rules now block transactions tip db ≡ ok tt
      → Chained block transactions tip
  unfolding validate_block_rules check_height check_previous_hash check_proof_of_work
      check_block_hash check_merkle_root
  validate_block_rules-Chained now block transactions tip db later e =
      let (height, e₁) = then_ok (check_height block tip) _ tt (rw later at e) in
      let (previous, e₂) = then_ok (check_previous_hash block tip) _ tt e₁ in
      let (size, e₃) = then_ok (check_block_size block transactions) _ tt e₂ in
      let (time, e₄) = then_ok (check_timestamp now block tip) _ tt e₃ in
      let (work, e₅) = then_ok (check_proof_of_work block) _ tt e₄ in
      let (hash, e₆) = then_ok (check_block_hash block) _ tt e₅ in
      let (root, e₇) = then_ok (check_merkle_root block transactions) _ tt e₆ in
      let (kind, e₈) = then_ok (check_kind block transactions tip) _ tt e₇ in
      record {
        next = ground (arith, ensure_ok _ _ height);
        linked = text_eq_sound _ _ (ensure_ok _ _ previous);
        worked = ensure_ok _ _ work;
        sealed = text_eq_sound _ _ (ensure_ok _ _ hash);
        committed = text_eq_sound _ _ (ensure_ok _ _ root);
        kind = check_kind-KindMet block transactions tip block.header.is_epoch_block refl kind;
      }

  genesis_sealed :
      (now : ℤ) (miner : Text) (n : ℕ) (m : MinedBlock)
      → Outcome (genesis_header now) 0 n (some m)
      → check_genesis (seal (genesis_header now) [] miner genesis_block_reward m) [] ≡ ok tt
  unfolding check_genesis check_previous_hash_genesis check_proof_of_work check_block_hash
      check_merkle_root seal new genesis_header new_header hash_with_nonce
  genesis_sealed now miner n m out = rw (
    text_eq_refl zero_hash,
    out.hit,
    out.hashed,
    text_eq_refl (hash_with_nonce (genesis_header now) m.nonce),
    text_eq_refl (compute_merkle_root []),
  )

  -- A genesis block that is produced, at any time and for any miner, passes the rules on every node,
  -- with no transactions and whatever the node's clock, tip and store are.
  pub validate_block_rules-produce_genesis_block :
      {S : Type 0} ⦃store : Store S⦄ (made now : ℤ) (miner : Text) (block : Block) (tip : ChainTip)
      (db : S)
      → produce_genesis_block made miner ≡ ok block
      → validate_block_rules now block [] tip db ≡ ok tt
  unfolding produce_genesis_block mine_and_seal
  validate_block_rules-produce_genesis_block made now miner block tip db h =
      elim (Option-cases (mine_block header attempts)) [
        | inl none_found ↦ absurd (cc (none_found, h))
        | inr (m, found) ↦
            subst (λ b. validate_block_rules now b [] tip db ≡ ok tt)
              (let e : seal header [] miner genesis_block_reward m ≡ block = cc (found, h) in e)
              (unfold validate_block_rules seal new genesis_header new_header in
                genesis_sealed made miner attempts m
                  (subst (Outcome header 0 attempts) found (mine_block-Outcome header attempts)))
      ]
    where
      header : BlockHeader
      header = genesis_header made

      attempts : ℕ
      attempts = 2 ^ 64 - 1

  -- The transaction checks are the last ones of an accepted block.
  pub validate_block_rules-check_transactions :
      {S : Type 0} ⦃store : Store S⦄ (now : ℤ) (block : Block) (transactions : List Transaction)
      (tip : ChainTip) (db : S)
      → (block.header.index == 0) ≡ false
      → validate_block_rules now block transactions tip db ≡ ok tt
      → check_transactions transactions db ≡ ok tt
  unfolding validate_block_rules
  validate_block_rules-check_transactions now block transactions tip db later e =
      let (height, e₁) = then_ok (check_height block tip) _ tt (rw later at e) in
      let (previous, e₂) = then_ok (check_previous_hash block tip) _ tt e₁ in
      let (size, e₃) = then_ok (check_block_size block transactions) _ tt e₂ in
      let (time, e₄) = then_ok (check_timestamp now block tip) _ tt e₃ in
      let (work, e₅) = then_ok (check_proof_of_work block) _ tt e₄ in
      let (hash, e₆) = then_ok (check_block_hash block) _ tt e₅ in
      let (root, e₇) = then_ok (check_merkle_root block transactions) _ tt e₆ in
      (then_ok (check_kind block transactions tip) _ tt e₇).1
