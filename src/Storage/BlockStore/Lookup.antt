-- ===== src/Storage/BlockStore/Lookup.antt =====
-- What the block store reads after it has written.
use kyvera_core.Prelude.{
  ◌≡◌, ◌∙◌, true, some, Text, ok, text_eq, text_eq_refl, is_utf8, if◌then◌else◌, arith,
}
use kyvera_core.Types.Block.{Block}
use kyvera_core.Chain.BlockProducer.{ChainTip}
use kyvera_core.Storage.Db.{Sled, Codec, KyveraDb, Works, Lossless, exists}
use kyvera_core.Storage.BlockStore.{
  chain_tip_key, to_be_bytes, decode_found, from_utf8, save_block, get_block_by_hash, get_block_at,
  get_block_by_height, block_exists, save_chain_tip, load_chain_tip,
}

module _ ⦃sled : Sled⦄ ⦃codec : Codec Block⦄ (works : Works sled) (lossless : Lossless codec) where
  open works use {find, put, get_ok, insert_ok, contains_ok, find-put}
  open lossless use {encode, to_vec_ok, from_slice_ok}

  -- The database after a block was written.
  abbrev pub with_block : Block → KyveraDb sled → KyveraDb sled
  with_block block db = record db {
    blocks_by_hash = put db.blocks_by_hash block.hash (encode block);
    blocks_by_height = put db.blocks_by_height (to_be_bytes block.header.index) block.hash;
  }

  pub save_block_ok :
      (block : Block) (db : KyveraDb sled) → save_block block db ≡ (ok tt, with_block block db)
  unfolding save_block
  save_block_ok block db = rw (
    to_vec_ok block,
    insert_ok db.blocks_by_hash block.hash (encode block),
    insert_ok db.blocks_by_height (to_be_bytes block.header.index) block.hash,
  )

  get_block_by_hash_ok :
      (hash : Text) (db : KyveraDb sled)
      → get_block_by_hash hash db ≡ (decode_found (find db.blocks_by_hash hash), db)
  unfolding get_block_by_hash
  get_block_by_hash_ok hash db = rw (get_ok db.blocks_by_hash hash)

  get_block_by_hash_saved :
      (block : Block) (db : KyveraDb sled) (hash : Text)
      → (get_block_by_hash hash (with_block block db)).0
        ≡ (if text_eq block.hash hash then ok (some block) else (get_block_by_hash hash db).0)
  get_block_by_hash_saved block db hash =
      rw
        (
          get_block_by_hash_ok hash (with_block block db),
          get_block_by_hash_ok hash db,
          find-put db.blocks_by_hash block.hash (encode block) hash,
        )
        (unfold decode_found in ground (arith, from_slice_ok block))

  pub get_block_by_height_saved :
      (block : Block) (db : KyveraDb sled)
      → is_utf8 block.hash ≡ true
      → (get_block_by_height block.header.index (with_block block db)).0 ≡ ok (some block)
  unfolding get_block_by_height get_block_at from_utf8
  get_block_by_height_saved block db utf8 =
      rw
        (
          get_ok (put db.blocks_by_height (to_be_bytes block.header.index) block.hash)
              (to_be_bytes block.header.index),
          find-put db.blocks_by_height (to_be_bytes block.header.index) block.hash
              (to_be_bytes block.header.index),
          text_eq_refl (to_be_bytes block.header.index),
          utf8,
        )
        (get_block_by_hash_saved block db block.hash ∙ rw (text_eq_refl block.hash))

  block_exists_saved :
      (block : Block) (db : KyveraDb sled)
      → (block_exists block.hash (with_block block db)).0 ≡ ok true
  unfolding block_exists exists
  block_exists_saved block db = rw (
    contains_ok (put db.blocks_by_hash block.hash (encode block)) block.hash,
    find-put db.blocks_by_hash block.hash (encode block) block.hash,
    text_eq_refl block.hash,
  )

  -- With a tree store that behaves as documented and a lossless serialisation: writing a block whose
  -- hash is UTF-8 succeeds; afterwards a look-up by hash finds it under its hash and is as before
  -- under any other, the look-up by its height finds it, and its hash exists.
  pub get_block-save_block :
      (block : Block) (db : KyveraDb sled) (hash : Text)
      → is_utf8 block.hash ≡ true
      → (save_block block db ≡ (ok tt, with_block block db))
        × ((get_block_by_hash hash (with_block block db)).0
            ≡ (if text_eq block.hash hash then ok (some block) else (get_block_by_hash hash db).0))
        × ((get_block_by_height block.header.index (with_block block db)).0 ≡ ok (some block))
        × ((block_exists block.hash (with_block block db)).0 ≡ ok true)
  get_block-save_block block db hash utf8 = (
    save_block_ok block db,
    get_block_by_hash_saved block db hash,
    get_block_by_height_saved block db utf8,
    block_exists_saved block db,
  )

module _ ⦃sled : Sled⦄ ⦃codec : Codec ChainTip⦄ (works : Works sled)
    (lossless : Lossless codec) where
  open works use {put, get_ok, insert_ok, find-put}
  open lossless use {encode, to_vec_ok, from_slice_ok}

  -- The database after a tip was written.
  abbrev pub with_tip : ChainTip → KyveraDb sled → KyveraDb sled
  with_tip tip db = record db { metadata = put db.metadata chain_tip_key (encode tip) }

  pub save_chain_tip_ok :
      (tip : ChainTip) (db : KyveraDb sled) → save_chain_tip tip db ≡ (ok tt, with_tip tip db)
  unfolding save_chain_tip
  save_chain_tip_ok tip db = rw (to_vec_ok tip, insert_ok db.metadata chain_tip_key (encode tip))

  pub load_chain_tip-save_chain_tip :
      (tip : ChainTip) (db : KyveraDb sled)
      → load_chain_tip (with_tip tip db) ≡ (ok (some tip), with_tip tip db)
  unfolding load_chain_tip
  load_chain_tip-save_chain_tip tip db =
      rw
        (
          get_ok (put db.metadata chain_tip_key (encode tip)) chain_tip_key,
          find-put db.metadata chain_tip_key (encode tip) chain_tip_key,
          text_eq_refl chain_tip_key,
        )
        (unfold decode_found in rw (from_slice_ok tip))
