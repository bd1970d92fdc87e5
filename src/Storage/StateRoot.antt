-- ===== src/Storage/StateRoot.antt =====
-- src/storage/state_trie.rs over the database: the root over all accounts and the stack of
-- snapshots. `Vec::sort` on strings is an insertion sort by their bytes.

pub mod Order
use kyvera_core.Prelude.{
  ℕ, ◌+◌, ◌*◌, ◌-◌, ◌<◌, Bool, true, false, ◌&&◌, Option, none, some, List, [], ◌∷◌, ◌++◌, Text,
  Result, ok, err, codes, decimal, is_utf8, is_empty, text_lt, ltb, leb, if◌then◌else◌, ◌>>=◌, ◌>>◌,
}
use kyvera_core.Types.Account.{Account, u64_mod}
use kyvera_core.Chain.Hash.{Hasher, sha3_256_hex}
use kyvera_core.Storage.Exec as Exec
use kyvera_core.Storage.Exec.{Fault, io_failed, serialize_failed, deserialize_failed, bad_text}
use kyvera_core.Storage.Db.{Sled, Codec, KyveraDb, or_fault}
use kyvera_core.Storage.AccountStore.Database.{get_metadata, set_metadata}
use kyvera_core.Storage.BlockStore.{from_utf8}

unfoldable pub insert_sorted : Text → List Text → List Text
insert_sorted s [] = s ∷ []
insert_sorted s (t ∷ ts) =
    let rest = insert_sorted s ts in if text_lt t s then t ∷ rest else s ∷ (t ∷ ts)

-- `account_hashes.sort()`.
unfoldable pub sort : List Text → List Text
unfolding insert_sorted
sort [] = []
sort (s ∷ ts) = insert_sorted s (sort ts)

-- `account_hashes.join("")`.
unfoldable pub join : List Text → Text
join [] = []
join (s ∷ ts) = s ++ join ts

module _ ⦃sled : Sled⦄ ⦃codec : Codec Account⦄ ⦃h : Hasher⦄ where
  -- The hash of one account, with its address in front.
  unfoldable pub account_hash : Text → Text → Result Fault Text
  unfolding from_utf8
  account_hash key value = do
    address ← from_utf8 key
    account ← or_fault (codec.from_slice value) deserialize_failed
    account_json ← or_fault (codec.to_vec account) serialize_failed
    ok (sha3_256_hex (address ++ account_json))

  -- The loop of `compute_state_root`.
  unfoldable pub account_hashes : List (Option (Text × Text)) → Result Fault (List Text)
  unfolding account_hash
  account_hashes [] = ok []
  account_hashes (none ∷ rest) = err io_failed
  account_hashes (some (key, value) ∷ rest) = do
    hash ← account_hash key value
    hashes ← account_hashes rest
    ok (hash ∷ hashes)

  unfoldable pub root_of : List Text → Text
  unfolding sort join
  root_of hashes =
      if is_empty hashes
      then sha3_256_hex (codes "kyvera-empty-state")
      else sha3_256_hex (join (sort hashes))

  unfoldable pub compute_state_root : KyveraDb sled → Result Fault Text
  unfolding account_hashes root_of
  compute_state_root db = do hashes ← account_hashes (sled.iter db.accounts); ok (root_of hashes)
