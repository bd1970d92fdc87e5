-- ===== src/Consensus/Genesis/Integrity.antt =====
-- `initialize_chain` on a fresh database, and the checks of later starts.
use kyvera_core.Prelude.{
  ℕ, ◌+◌, ◌<◌, ◌^◌, ◌≡◌, refl, ap, ◌∙◌, subst, true, none, some, List, arith, Text, ok, err,
  is_utf8,
}
use kyvera_core.Prelude.Int.{ℤ}
use kyvera_core.Types.Account.{Account}
use kyvera_core.Types.Block.{Block}
use kyvera_core.Chain.Hash.{Hasher}
use kyvera_core.Chain.Mining.{genesis_block_reward}
use kyvera_core.Chain.BlockProducer.{ChainTip, genesis, advance, produce_genesis_block}
use kyvera_core.Storage.Exec.{already_initialized}
use kyvera_core.Storage.Db.{Sled, Codec, KyveraDb, Works, Lossless}
use kyvera_core.Storage.Store.Laws.{credited, contains, distinct}
use kyvera_core.Storage.AccountStore.{credit_account}
use kyvera_core.Storage.AccountStore.Database.{db_store}
use kyvera_core.Storage.AccountStore.Database.Lawful.{noted, set_metadata_ok}
use kyvera_core.Storage.AccountStore.Database.Funds.{supply_same_accounts}
use kyvera_core.Storage.BlockStore.{
  chain_tip_key, load_chain_tip, decode_found, get_block_by_height,
}
use kyvera_core.Storage.BlockStore.Lookup.{
  with_block, save_block_ok, get_block_by_height_saved, with_tip, save_chain_tip_ok,
  load_chain_tip-save_chain_tip,
}
use kyvera_core.Storage.StateRoot.{compute_state_root}
use kyvera_core.Storage.StateTrie.{treasury_address, state_root_key, save_state_root}
use kyvera_core.Consensus.Genesis.{
  total_supply, mining_allocation, ecosystem_address, founder_address, community_address,
  apply_genesis_allocations,
}
use kyvera_core.Consensus.Genesis.Startup.{
  genesis_miner, no_tip, produced, is_expected_genesis, verify_genesis_integrity, initialize_chain,
}
use kyvera_core.Consensus.Genesis.Initialized.{
  Ready, is_expected_genesis-produce_genesis_block, compute_state_root_ok, funds_of,
  allocations-Ready,
}

module _ ⦃sled : Sled⦄ ⦃accounts : Codec Account⦄ ⦃blocks : Codec Block⦄ ⦃tips : Codec ChainTip⦄
    ⦃h : Hasher⦄ (works : Works sled) (lossless : Lossless accounts) (kept : Lossless blocks)
    (tipped : Lossless tips) where
  open works use {find, put, get_ok, find-put}

  load_chain_tip_absent :
      (db : KyveraDb sled)
      → find db.metadata chain_tip_key ≡ none
      → load_chain_tip db ≡ (ok none, db)
  unfolding load_chain_tip decode_found
  load_chain_tip_absent db e = rw (get_ok db.metadata chain_tip_key, e)

  -- The database at the end.
  abbrev finished : KyveraDb sled → sled.Tree → Block → Text → KyveraDb sled
  finished db tree block root = with_tip works tipped (advance genesis block) (
      noted works lossless state_root_key root
        (with_block works kept block (record db { accounts = tree })))

  save_state_root_ok :
      (root : Text) (db : KyveraDb sled)
      → save_state_root root db ≡ (ok tt, noted works lossless state_root_key root db)
  unfolding save_state_root
  save_state_root_ok root db = set_metadata_ok works lossless db state_root_key root

  initialize_chain_ok :
      (now : ℤ) (db : KyveraDb sled) (block : Block) (tree tree' : sled.Tree) (root : Text)
      → find db.metadata chain_tip_key ≡ none
      → produce_genesis_block now genesis_miner ≡ ok block
      → apply_genesis_allocations db ≡ (ok tt, record db { accounts = tree })
      → credit_account genesis_miner genesis_block_reward (record db { accounts = tree })
        ≡ (ok tt, record db { accounts = tree' })
      → compute_state_root (record db { accounts = tree' }) ≡ ok root
      → initialize_chain now db ≡ (ok (advance genesis block), finished db tree' block root)
  unfolding initialize_chain no_tip produced compute_state_root
  initialize_chain_ok now db block tree tree' root fresh mined allocated credited hashed =
      let state = with_block works kept block (record db { accounts = tree' }) in
      rw (
        load_chain_tip_absent db fresh,
        mined,
        allocated,
        credited,
        save_block_ok works kept block (record db { accounts = tree' }),
        hashed,
        save_state_root_ok root state,
        save_chain_tip_ok works tipped (advance genesis block)
            (noted works lossless state_root_key root state),
      )

  initialize_chain_again :
      (now : ℤ) (db : KyveraDb sled) (tip : ChainTip)
      → load_chain_tip db ≡ (ok (some tip), db)
      → initialize_chain now db ≡ (err (already_initialized tip.height), db)
  unfolding initialize_chain no_tip
  initialize_chain_again now db tip e = rw e

  verify_genesis_integrity_ok :
      (db : KyveraDb sled) (block : Block)
      → (get_block_by_height 0 db).0 ≡ ok (some block)
      → is_expected_genesis (some block) ≡ true
      → (verify_genesis_integrity db).0 ≡ ok true
  unfolding verify_genesis_integrity
  verify_genesis_integrity_ok db block found expected = rw (found, expected)

  module _ (addresses : List Text) (once : distinct addresses ≡ true) where
    abbrev total_of : KyveraDb sled → ℕ
    total_of db = funds_of works lossless addresses once db

    -- With a tree store that behaves as documented and lossless serialisations, on a database with no
    -- chain tip, whose account records decode under UTF-8 keys, for a list of distinct addresses with
    -- the four funds among them whose funds sum to less than 2^63, when mining finds a genesis block
    -- whose hash is UTF-8: the initialisation succeeds with the tip at that block; afterwards the
    -- integrity check answers true, the tip is loaded back, every further initialisation fails with
    -- the stored height 0 and changes nothing, and the funds have grown by the total supply less the
    -- part for mining, plus the genesis reward.
    pub initialize_chain-integrity :
        (now : ℤ) (db : KyveraDb sled) (block : Block)
        → Ready works lossless db
        → find db.metadata chain_tip_key ≡ none
        → contains addresses ecosystem_address ≡ true
        → contains addresses founder_address ≡ true
        → contains addresses community_address ≡ true
        → contains addresses treasury_address ≡ true
        → total_of db < 2 ^ 63
        → produce_genesis_block now genesis_miner ≡ ok block
        → is_utf8 block.hash ≡ true
        → (db' : KyveraDb sled) × (initialize_chain now db ≡ (ok (advance genesis block), db'))
          × ((verify_genesis_integrity db').0 ≡ ok true)
          × (load_chain_tip db' ≡ (ok (some (advance genesis block)), db'))
          × ((later : ℤ) → initialize_chain later db' ≡ (err (already_initialized 0), db'))
          × (total_of db' + mining_allocation ≡ total_of db + total_supply + genesis_block_reward)
    initialize_chain-integrity now db block ready fresh eco founder community treasury small mined
          text =
        let (tree, tree', allocated, credited, ready', total) =
          allocations-Ready works lossless addresses once db ready eco founder community treasury
            small in
        let (index, expected) = is_expected_genesis-produce_genesis_block now block mined in
        let (root, hashed) =
          compute_state_root_ok works lossless (record db { accounts = tree' }) ready' in
        let after = finished db tree' block root in
        let loaded = load_chain_tip-save_chain_tip works tipped (advance genesis block) (
          noted works lossless state_root_key root
            (with_block works kept block (record db { accounts = tree' }))) in
        let height : (advance genesis block).height ≡ 0 = (unfold advance in index) in
        let at_0 : (get_block_by_height 0 after).0 ≡ ok (some block) =
          subst (λ i. (get_block_by_height i after).0 ≡ ok (some block)) index
            (get_block_by_height_saved works kept block
              (record db { accounts = tree'; metadata = after.metadata }) text) in
        (
          after,
          initialize_chain_ok now db block tree tree' root fresh mined allocated credited hashed,
          verify_genesis_integrity_ok after block at_0 expected,
          loaded,
          λ later.
              initialize_chain_again later after (advance genesis block) loaded
              ∙ ap (λ i. (err (already_initialized i), after)) height,
          omega (
            arith,
            total,
            supply_same_accounts works lossless addresses (record db { accounts = tree' }) after
                refl,
          ),
        )
