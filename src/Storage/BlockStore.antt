-- ===== src/Storage/BlockStore.antt =====
-- src/storage/block_store.rs: blocks by hash and by height, and the stored chain tip.
pub mod Lookup
use kyvera_core.Prelude.{
  ℕ, Bool, Option, none, some, List, Text, Result, ok, err, codes, is_utf8, if◌then◌else◌,
}
use mathlib.Core.List.{reverse}
use kyvera_core.Types.Block.{Block}
use kyvera_core.Chain.Hash.{to_le_bytes}
use kyvera_core.Chain.BlockProducer.{ChainTip}
use kyvera_core.Storage.Exec.{
  Exec, Fault, continue, ◌>>=◌, ◌>>◌, pure, lift, serialize_failed, deserialize_failed, bad_text,
}
use kyvera_core.Storage.Db.{Sled, Codec, KyveraDb, or_fault, write, read, exists, count}

abbrev pub chain_tip_key : Text
chain_tip_key = codes "chain_tip"

-- `u64::to_be_bytes`.
unfoldable pub to_be_bytes : ℕ → Text
unfolding to_le_bytes
to_be_bytes n = reverse (to_le_bytes n)

-- `serde_json::from_slice` of the bytes found, if any.
unfoldable pub decode_found :
    {A : Type 0} → ⦃codec : Codec A⦄ → Option Text → Result Fault (Option A)
decode_found none = ok none
decode_found ⦃codec⦄ (some bytes) = elim (codec.from_slice bytes) [
  | none ↦ err deserialize_failed
  | some a ↦ ok (some a)
]

-- `String::from_utf8(bytes)`.
unfoldable pub from_utf8 : Text → Result Fault Text
from_utf8 bytes = if is_utf8 bytes then ok bytes else err bad_text

module _ ⦃sled : Sled⦄ where
  module _ ⦃codec : Codec Block⦄ where
    unfoldable pub save_block : Block → Exec (KyveraDb sled) (Unit {0})
    unfolding to_be_bytes write
    save_block block db =
        (do
          serialized ← lift (or_fault (codec.to_vec block) serialize_failed)
          by_hash ← lift (write db.blocks_by_hash block.hash serialized)
          λ db'. (ok tt, record db' { blocks_by_hash = by_hash })
          by_height ← lift (write db.blocks_by_height (to_be_bytes block.header.index) block.hash)
          λ db'. (ok tt, record db' { blocks_by_height = by_height }))
          db

    unfoldable pub get_block_by_hash : Text → Exec (KyveraDb sled) (Option Block)
    unfolding read decode_found
    get_block_by_hash hash db =
        (do found ← lift (read db.blocks_by_hash hash); lift (decode_found found)) db

    unfoldable pub get_block_at : Option Text → Exec (KyveraDb sled) (Option Block)
    unfolding from_utf8
    get_block_at none = pure none
    get_block_at (some hash_bytes) = do hash ← lift (from_utf8 hash_bytes); get_block_by_hash hash

    unfoldable pub get_block_by_height : ℕ → Exec (KyveraDb sled) (Option Block)
    unfolding get_block_at read to_be_bytes
    get_block_by_height height db =
        (do found ← lift (read db.blocks_by_height (to_be_bytes height)); get_block_at found) db

  unfoldable pub block_exists : Text → Exec (KyveraDb sled) Bool
  unfolding exists
  block_exists hash db = lift (exists db.blocks_by_hash hash) db

  module _ ⦃codec : Codec ChainTip⦄ where
    unfoldable pub save_chain_tip : ChainTip → Exec (KyveraDb sled) (Unit {0})
    unfolding write
    save_chain_tip tip db =
        (do
          serialized ← lift (or_fault (codec.to_vec tip) serialize_failed)
          tree ← lift (write db.metadata chain_tip_key serialized)
          λ db'. (ok tt, record db' { metadata = tree }))
          db

    unfoldable pub load_chain_tip : Exec (KyveraDb sled) (Option ChainTip)
    unfolding read decode_found
    load_chain_tip db =
        (do found ← lift (read db.metadata chain_tip_key); lift (decode_found found)) db

  unfoldable pub block_count : KyveraDb sled → ℕ
  unfolding count
  block_count db = count db.blocks_by_hash
