-- ===== src/Consensus/Genesis/Startup.antt =====
-- `initialize_chain` and `verify_genesis_integrity` of src/consensus/genesis.rs, over the database.
-- The clock of the genesis header is an argument; printing is left out.
use kyvera_core.Prelude.{
  Bool, true, false, not, ◌||◌, Option, none, some, Text, Result, ok, err, text_eq, ◌==◌,
  if◌then◌else◌,
}
use kyvera_core.Prelude.Int.{ℤ}
use kyvera_core.Types.Account.{Account}
use kyvera_core.Types.Block.{Block}
use kyvera_core.Chain.Hash.{Hasher}
use kyvera_core.Chain.Mining.{genesis_block_reward}
use kyvera_core.Chain.BlockProducer.{
  ChainTip, BlockError, zero_hash, genesis, advance, produce_genesis_block,
}
use kyvera_core.Storage.Exec.{
  Exec, Fault, ◌>>=◌, ◌>>◌, pure, lift, already_initialized, genesis_failed,
}
use kyvera_core.Storage.Db.{Sled, Codec, KyveraDb}
use kyvera_core.Storage.AccountStore.{credit_account}
use kyvera_core.Storage.AccountStore.Database.{db_store}
use kyvera_core.Storage.BlockStore.{save_block, get_block_by_height, save_chain_tip, load_chain_tip}
use kyvera_core.Storage.StateRoot.{compute_state_root}
use kyvera_core.Storage.StateTrie.{save_state_root}
use kyvera_core.Consensus.Genesis.{founder_address, apply_genesis_allocations}

abbrev pub genesis_miner : Text
genesis_miner = founder_address

-- `if let Some(tip) = .. { return Err(..) }`
unfoldable pub no_tip : Option ChainTip → Result Fault (Unit {0})
no_tip none = ok tt
no_tip (some tip) = err (already_initialized tip.height)

-- `map_err(|e| format!("Failed to produce genesis block: {}", e))?`
unfoldable pub produced : Result BlockError Block → Result Fault Block
produced (ok block) = ok block
produced (err e) = err genesis_failed

-- The early returns of `verify_genesis_integrity` on the block found.
unfoldable pub is_expected_genesis : Option Block → Bool
is_expected_genesis none = false
is_expected_genesis (some block) =
    if not (block.header.index == 0) || not block.header.is_epoch_block
    then false
    else if not (text_eq block.header.previous_hash zero_hash)
    then false
    else if not (text_eq block.producer_address genesis_miner)
    then false
    else true

module _ ⦃sled : Sled⦄ ⦃blocks : Codec Block⦄ where
  unfoldable pub verify_genesis_integrity : Exec (KyveraDb sled) Bool
  unfolding is_expected_genesis
  verify_genesis_integrity = do found ← get_block_by_height 0; pure (is_expected_genesis found)

  module _ ⦃accounts : Codec Account⦄ ⦃tips : Codec ChainTip⦄ ⦃h : Hasher⦄ where
    unfoldable pub initialize_chain : ℤ → Exec (KyveraDb sled) ChainTip
    unfolding no_tip produced
    initialize_chain now = do
      found ← load_chain_tip
      lift (no_tip found)
      block ← lift (produced (produce_genesis_block now genesis_miner))
      apply_genesis_allocations
      credit_account genesis_miner genesis_block_reward
      save_block block
      state_root ← λ db. lift (compute_state_root db) db
      save_state_root state_root
      save_chain_tip (advance genesis block)
      pure (advance genesis block)
