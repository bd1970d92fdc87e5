-- ===== src/Consensus/Genesis/Initialized.antt =====
-- What `initialize_chain` leaves in the database.
use kyvera_core.Prelude.{
  ℕ, ◌+◌, ◌-◌, ◌<◌, ◌^◌, ◌≡◌, refl, inl, inr, subst, true, some, List, [], ◌∷◌, ◌++◌, map, arith,
  Text, ok, ltb, is_utf8, text_eq, Option-cases,
}
use kyvera_core.Prelude.Int.{ℤ}
use kyvera_core.Types.Account.{Account, u64_mod}
use kyvera_core.Types.Block.{Block, new, new_header}
use kyvera_core.Chain.Hash.{Hasher, sha3_256_hex}
use kyvera_core.Chain.Mining.{MinedBlock, mine_block, genesis_block_reward}
use kyvera_core.Chain.BlockProducer.{genesis_header, seal, mine_and_seal, produce_genesis_block}
use kyvera_core.Storage.Db.{Sled, Codec, KyveraDb, Works, Lossless, AllEntries}
use kyvera_core.Storage.Store.Laws.{
  holder, credited, holder-address, supply, contains, distinct, funds-le-supply,
}
use kyvera_core.Storage.AccountStore.{credit_account}
use kyvera_core.Storage.AccountStore.Outcomes.{credit_account_ok}
use kyvera_core.Storage.AccountStore.Database.{db_store}
use kyvera_core.Storage.AccountStore.Database.Lawful.{
  Decodes, DecodesEntry, db_store-Laws, saved-Decodes,
}
use kyvera_core.Storage.BlockStore.{from_utf8}
use kyvera_core.Storage.StateRoot.{account_hash, account_hashes, root_of, compute_state_root}
use kyvera_core.Storage.StateTrie.{treasury_address}
use kyvera_core.Storage.StateTrie.Supply.{supply_credit}
use kyvera_core.Consensus.Genesis.{
  total_supply, mining_allocation, ecosystem_allocation, founder_allocation, community_allocation,
  treasury_allocation, ecosystem_address, founder_address, community_address,
  apply_genesis_allocations,
}
use kyvera_core.Consensus.Genesis.Startup.{genesis_miner, is_expected_genesis}

-- The key of an entry is UTF-8.
abbrev pub TextKey : Text × Text → Type 0
TextKey (key, value) = is_utf8 key ≡ true

module _ ⦃h : Hasher⦄ where
  sealed_expected :
      (now : ℤ) (m : MinedBlock)
      → ((seal (genesis_header now) [] genesis_miner genesis_block_reward m).header.index ≡ 0)
        × (is_expected_genesis
              (some (seal (genesis_header now) [] genesis_miner genesis_block_reward m))
            ≡ true)
  unfolding seal genesis_header new_header new is_expected_genesis text_eq
  sealed_expected now m = (refl, refl)

  -- A produced genesis block passes the test on its header and its producer.
  pub is_expected_genesis-produce_genesis_block :
      (now : ℤ) (block : Block)
      → produce_genesis_block now genesis_miner ≡ ok block
      → (block.header.index ≡ 0) × (is_expected_genesis (some block) ≡ true)
  unfolding produce_genesis_block mine_and_seal
  is_expected_genesis-produce_genesis_block now block e =
      elim (Option-cases (mine_block (genesis_header now) (2 ^ 64 - 1))) [
        | inl none_found ↦ absurd (cc (none_found, e))
        | inr (m, found) ↦
            subst (λ b. (b.header.index ≡ 0) × (is_expected_genesis (some b) ≡ true))
              (let same : seal (genesis_header now) [] genesis_miner genesis_block_reward m
                    ≡ block =
                  cc (found, e) in
                same)
              (sealed_expected now m)
      ]

module _ ⦃sled : Sled⦄ ⦃accounts : Codec Account⦄ ⦃h : Hasher⦄ (works : Works sled)
    (lossless : Lossless accounts) where
  open works use {find, put, entries, iter_ok, entries-put}

  -- The accounts decode, under keys that are texts.
  abbrev pub Ready : KyveraDb sled → Type 0
  Ready db = Decodes works lossless db × AllEntries TextKey (entries db.accounts)

  account_hashes_ok :
      (es : List (Text × Text))
      → AllEntries (DecodesEntry works lossless) es
      → AllEntries TextKey es
      → (hashes : List Text) × (account_hashes (map some es) ≡ ok hashes)
  unfolding account_hashes account_hash from_utf8
  account_hashes_ok [] all texts = ([], refl)
  account_hashes_ok ((k, v) ∷ es) ((x, e), all) (text, texts) =
      let (hashes, rest) = account_hashes_ok es all texts in
      (sha3_256_hex (k ++ lossless.encode x) ∷ hashes, rw (text, e, lossless.to_vec_ok x, rest))

  pub compute_state_root_ok :
      (db : KyveraDb sled) → Ready db → (root : Text) × (compute_state_root db ≡ ok root)
  unfolding compute_state_root
  compute_state_root_ok db (wf, texts) =
      let (hashes, e) = account_hashes_ok (entries db.accounts) wf.all texts in
      (root_of hashes, rw (iter_ok db.accounts, e))

  module _ (addresses : List Text) (once : distinct addresses ≡ true) where
    abbrev pub funds_of : KyveraDb sled → ℕ
    funds_of db = supply (db_store-Laws works lossless) addresses db

    -- The accounts after credits of a sum.
    abbrev pub Funded : KyveraDb sled → ℕ → sled.Tree → Type 0
    Funded db amount tree =
        Ready (record db { accounts = tree })
        × (funds_of (record db { accounts = tree }) ≡ funds_of db + amount)

    credit-Ready :
        (db : KyveraDb sled) (a : Text) (amount : ℕ)
        → Ready db
        → contains addresses a ≡ true
        → is_utf8 a ≡ true
        → funds_of db + amount < u64_mod
        → (tree : sled.Tree) × (credit_account a amount db ≡ (ok tt, record db { accounts = tree }))
          × Funded db amount tree
    unfolding db_store-Laws
    credit-Ready db a amount (wf, texts) listed text room =
        let laws = db_store-Laws works lossless in
        let x = credited laws db a amount in
        let fits : ltb ((holder laws db a).balance + amount) u64_mod ≡ true =
          ground (arith, funds-le-supply laws addresses db a listed) in
        (
          put db.accounts x.address (lossless.encode x),
          rw (credit_account_ok laws db wf a amount, fits),
          (
            (
              saved-Decodes works lossless db x wf,
              entries-put TextKey db.accounts x.address (lossless.encode x) texts
                  (rw (holder-address laws db a wf) text),
            ),
            supply_credit laws addresses once db a amount wf listed,
          ),
        )

    -- The four credits, and then that of the genesis miner.
    pub allocations-Ready :
        (db : KyveraDb sled)
        → Ready db
        → contains addresses ecosystem_address ≡ true
        → contains addresses founder_address ≡ true
        → contains addresses community_address ≡ true
        → contains addresses treasury_address ≡ true
        → funds_of db < 2 ^ 63
        → (tree : sled.Tree) × (tree' : sled.Tree) × (apply_genesis_allocations db
            ≡ (ok tt, record db { accounts = tree }))
          × (credit_account genesis_miner genesis_block_reward (record db { accounts = tree })
              ≡ (ok tt, record db { accounts = tree' }))
          × Ready (record db { accounts = tree' })
          × (funds_of (record db { accounts = tree' }) + mining_allocation
              ≡ funds_of db + total_supply + genesis_block_reward)
    unfolding apply_genesis_allocations
    allocations-Ready db ready eco founder community treasury small =
        let (t₁, e₁, (r₁, p₁)) =
          credit-Ready db ecosystem_address ecosystem_allocation ready eco (unfold is_utf8 in refl)
            (omega arith) in
        let (t₂, e₂, (r₂, p₂)) =
          credit-Ready (record db { accounts = t₁ }) founder_address founder_allocation r₁ founder
            (unfold is_utf8 in refl) (omega arith) in
        let (t₃, e₃, (r₃, p₃)) =
          credit-Ready (record db { accounts = t₂ }) community_address community_allocation r₂
            community (unfold is_utf8 in refl) (omega arith) in
        let (t₄, e₄, (r₄, p₄)) =
          credit-Ready (record db { accounts = t₃ }) treasury_address treasury_allocation r₃
            treasury (unfold is_utf8 in refl) (omega arith) in
        let (t₅, e₅, (r₅, p₅)) =
          credit-Ready (record db { accounts = t₄ }) genesis_miner genesis_block_reward r₄ founder
            (unfold is_utf8 in refl) (omega arith) in
        (t₄, t₅, rw (e₁, e₂, e₃, e₄), e₅, r₅, omega arith)
