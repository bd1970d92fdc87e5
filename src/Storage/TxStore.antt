-- ===== src/Storage/TxStore.antt =====
-- src/storage/tx_store.rs: transactions by hash, with an index by sender in the same tree.
pub mod History
use kyvera_core.Prelude.{
  ℕ, zero, suc, ◌+◌, ◌/◌, ◌%◌, Bool, true, false, not, Option, none, some, List, [], ◌∷◌, ◌++◌,
  Text, Result, ok, err, codes, is_empty, starts_with, take, if◌then◌else◌,
}
use mathlib.Core.List.{reverse}
use kyvera_core.Types.Transaction.{Transaction}
use kyvera_core.Storage.Exec.{
  Exec, Fault, continue, ◌>>=◌, ◌>>◌, pure, lift, require, empty_hash, io_failed, serialize_failed,
}
use kyvera_core.Storage.Db.{Sled, Codec, KyveraDb, or_fault, write, read, exists}
use kyvera_core.Storage.BlockStore.{decode_found, from_utf8}

abbrev pub sender_prefix : Text
sender_prefix = codes "sender:"

-- `{:020}` of a `u64`: its last `width` digits, zeros included.
unfoldable pub padded_from : ℕ → ℕ → Text → Text
padded_from zero n acc = acc
padded_from (suc width) n acc = padded_from width (n / 10) ((b'0' + n % 10) ∷ acc)

unfoldable pub padded : ℕ → Text
unfolding padded_from
padded n = padded_from 20 n []

-- `format!("{}{}:{:020}", SENDER_PREFIX, tx.sender, tx.nonce)`.
unfoldable pub sender_key : Transaction → Text
sender_key tx = sender_prefix ++ (tx.sender ++ (codes ":" ++ padded tx.nonce))

-- The loop over a scan: the values as texts.
unfoldable pub hashes_in : List (Option (Text × Text)) → Result Fault (List Text)
unfolding from_utf8
hashes_in [] = ok []
hashes_in (none ∷ rest) = err io_failed
hashes_in (some (key, value) ∷ rest) =
    let others = hashes_in rest in
    elim (from_utf8 value) [
      | err e ↦ err e
      | ok hash ↦ elim others [ err e ↦ err e | ok hashes ↦ ok (hash ∷ hashes) ]
    ]

-- `filter(..).count()` of the entries that are not of the index.
unfoldable pub count_primary : List (Option (Text × Text)) → ℕ
count_primary [] = 0
count_primary (none ∷ rest) = count_primary rest
count_primary (some (key, value) ∷ rest) =
    let others = count_primary rest in if starts_with key sender_prefix then others else others + 1

module _ ⦃sled : Sled⦄ where
  -- `KyveraDb::write(&db.transactions, key, value)?`.
  unfoldable pub write_transactions : Text → Text → Exec (KyveraDb sled) (Unit {0})
  unfolding write
  write_transactions key value db =
      (do
        tree ← lift (write db.transactions key value)
        λ db'. (ok tt, record db' { transactions = tree }))
        db

  unfoldable pub transaction_exists : Text → Exec (KyveraDb sled) Bool
  unfolding exists
  transaction_exists hash db = lift (exists db.transactions hash) db

  unfoldable pub get_transactions_by_sender : Text → Exec (KyveraDb sled) (List Text)
  unfolding hashes_in
  get_transactions_by_sender address db =
      lift (hashes_in (sled.scan_prefix db.transactions (sender_prefix ++ address))) db

  unfoldable pub transaction_count : KyveraDb sled → ℕ
  unfolding count_primary
  transaction_count db = count_primary (sled.scan_prefix db.transactions [])

  module _ ⦃codec : Codec Transaction⦄ where
    unfoldable pub save_transaction : Transaction → Exec (KyveraDb sled) (Unit {0})
    unfolding write_transactions sender_key
    save_transaction tx = do
      require (not (is_empty tx.hash)) empty_hash
      serialized ← lift (or_fault (codec.to_vec tx) serialize_failed)
      write_transactions tx.hash serialized
      write_transactions (sender_key tx) tx.hash

    unfoldable pub get_transaction : Text → Exec (KyveraDb sled) (Option Transaction)
    unfolding read decode_found
    get_transaction hash db =
        (do found ← lift (read db.transactions hash); lift (decode_found found)) db

    -- The loop that loads the transactions of the hashes.
    unfoldable pub load_transactions : List Text → Exec (KyveraDb sled) (List Transaction)
    unfolding get_transaction
    load_transactions [] = pure []
    load_transactions (hash ∷ rest) = do
      found ← get_transaction hash
      others ← load_transactions rest
      pure (elim found [ none ↦ others | some tx ↦ tx ∷ others ])

    unfoldable pub get_recent_transactions_by_sender :
        Text → ℕ → Exec (KyveraDb sled) (List Transaction)
    unfolding get_transactions_by_sender load_transactions
    get_recent_transactions_by_sender address limit = do
      hashes ← get_transactions_by_sender address
      load_transactions (take limit (reverse hashes))

    unfoldable pub save_block_transactions : List Transaction → Exec (KyveraDb sled) (Unit {0})
    unfolding save_transaction
    save_block_transactions [] = pure tt
    save_block_transactions (tx ∷ rest) = do save_transaction tx; save_block_transactions rest
