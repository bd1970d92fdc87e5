-- ===== src/Consensus/Rules/History.antt =====
-- The chains that a node can reach by accepting blocks: a step relation over the tip.
use kyvera_core.Prelude.{
  ℕ, ◌+◌, ◌%◌, ◌<◌, ◌≡◌, ◌∙◌, refl, ap, true, false, List, [], ◌∷◌, Text, ok, ◌==◌, if◌then◌else◌,
  arith, length, Bool-cases, inl, inr,
}
use kyvera_core.Prelude.Int.{ℤ}
use kyvera_core.Types.Account.{u64_mod}
use kyvera_core.Types.Transaction.{Transaction}
use kyvera_core.Types.Block.{Block}
use kyvera_core.Chain.Hash.{Hasher, meets_difficulty}
use kyvera_core.Chain.Mining.{calculate_block_reward}
use kyvera_core.Chain.BlockProducer.{ChainTip, advance}
use kyvera_core.Storage.Store.{Store}
use kyvera_core.Consensus.Rules.{validate_block_rules}
use kyvera_core.Consensus.Rules.Chained.{Chained, validate_block_rules-Chained}

-- The hash of the newest block, or of the origin.
abbrev pub newest : Text → List Block → Text
newest origin [] = origin
newest origin (block ∷ older) = block.hash

-- Every block points to the hash of the one before it, and meets its own difficulty.
abbrev pub Linked : Text → List Block → Type 0
Linked origin [] = Unit
Linked origin (block ∷ older) =
    (block.header.previous_hash ≡ newest origin older)
    × (meets_difficulty block.hash block.header.difficulty ≡ true)
    × Linked origin older

unfoldable pub epochs : List Block → ℕ
epochs [] = 0
epochs (block ∷ older) =
    let before = epochs older in if block.header.is_epoch_block then before + 1 else before

unfoldable pub work : List Block → ℕ
work [] = 0
work (block ∷ older) = work older + block.header.difficulty

-- Epoch blocks are paid by the schedule, by their number since the origin.
abbrev pub Scheduled : ℕ → List Block → Type 0
Scheduled first [] = Unit
Scheduled first (block ∷ older) =
    (block.header.is_epoch_block ≡ true
      → block.block_reward ≡ calculate_block_reward ((first + epochs older + 1) % u64_mod))
    × Scheduled first older

module _ (S : Type 0) ⦃store : Store S⦄ ⦃h : Hasher⦄ where
  -- The tips reached from an origin, with the accepted blocks, newest first.
  pub data Reaches (origin : ChainTip) : List Block → ChainTip → Type 0 where
    at_origin : Reaches origin [] origin
    accepted :
        {older : List Block} {tip : ChainTip}
        → Reaches origin older tip
        → (now : ℤ) (block : Block) (transactions : List Transaction) (db : S)
        → (block.header.index == 0) ≡ false
        → validate_block_rules now block transactions tip db ≡ ok tt
        → Reaches origin (block ∷ older) (advance tip block)

  -- What the tip says of the chain behind it.
  pub record Faithful (origin : ChainTip) (blocks : List Block) (tip : ChainTip) : Type 0 where
    pub height : tip.height ≡ (origin.height + length blocks) % u64_mod
    pub hash : tip.hash ≡ newest origin.hash blocks
    pub epoch : tip.epoch_index ≡ (origin.epoch_index + epochs blocks) % u64_mod
    pub total_work : tip.total_work ≡ (origin.total_work + work blocks) % u64_mod
    pub linked : Linked origin.hash blocks
    pub scheduled : Scheduled origin.epoch_index blocks

  Faithful-advance :
      (origin tip : ChainTip) (block : Block) (older : List Block) (transactions : List Transaction)
      → Faithful origin older tip
      → Chained block transactions tip
      → Faithful origin (block ∷ older) (advance tip block)
  unfolding advance epochs work
  Faithful-advance origin tip block older transactions f c =
      elim (Bool-cases block.header.is_epoch_block) [
        | inl is_epoch ↦
            let (index, reward, paid) = (rw is_epoch at c.kind) in
            let number : block.header.epoch_index
                ≡ (origin.epoch_index + epochs older + 1) % u64_mod =
              omega (arith, index, f.epoch) in
            record {
              height = omega (arith, c.next, f.height);
              hash = refl;
              epoch = rw is_epoch (omega (arith, index, f.epoch));
              total_work = omega (arith, f.total_work);
              linked = (c.linked ∙ f.hash, c.worked, f.linked);
              scheduled = ((λ here. reward ∙ ap calculate_block_reward number), f.scheduled);
            }
        | inr micro ↦ record {
          height = omega (arith, c.next, f.height);
          hash = refl;
          epoch = rw micro f.epoch;
          total_work = omega (arith, f.total_work);
          linked = (c.linked ∙ f.hash, c.worked, f.linked);
          scheduled = ((λ here. absurd (cc (here, micro))), f.scheduled);
        }
      ]

  -- From an origin whose counters are below 2^64: at every tip that is reached by accepting blocks
  -- with an index other than 0, the height, the epoch index and the total work are the origin's plus
  -- the number of blocks, of epoch blocks, and the sum of the difficulties, modulo 2^64; the tip's
  -- hash is that of the newest block; every block points to the one before it and meets its
  -- difficulty; and every epoch block pays the reward that the schedule gives for its number.
  pub Reaches-Faithful :
      (origin : ChainTip) (blocks : List Block) (tip : ChainTip)
      → origin.height < u64_mod
      → origin.epoch_index < u64_mod
      → origin.total_work < u64_mod
      → Reaches origin blocks tip
      → Faithful origin blocks tip
  unfolding epochs work
  Reaches-Faithful origin blocks tip a b c at_origin = record {
    height = omega arith;
    hash = refl;
    epoch = omega arith;
    total_work = omega arith;
    linked = tt;
    scheduled = tt;
  }
  Reaches-Faithful origin blocks tip a b c
        (accepted {older} {tip = before} run now block transactions db later e) =
      Faithful-advance origin before block older transactions
        (Reaches-Faithful origin older before a b c run)
        (validate_block_rules-Chained now block transactions before db later e)
