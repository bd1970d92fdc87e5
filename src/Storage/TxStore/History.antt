-- ===== src/Storage/TxStore/History.antt =====
-- What the transaction store reads after it has written.
use kyvera_core.Prelude.{
  ◌≡◌, refl, inl, inr, true, false, some, List, [], ◌∷◌, ◌++◌, map, Text, ok, text_eq, text_eq_refl,
  starts_with, is_utf8, is_empty, Bool-cases, arith, codes,
}
use kyvera_core.Types.Transaction.{Transaction}
use kyvera_core.Storage.Db.{
  Sled, Codec, KyveraDb, Works, Lossless, AllEntries, put_entry, prefixed, write,
}
use kyvera_core.Storage.Store.Laws.{contains}
use kyvera_core.Storage.BlockStore.{decode_found, from_utf8}
use kyvera_core.Storage.TxStore.{
  sender_prefix, sender_key, padded, hashes_in, write_transactions, save_transaction,
  get_transaction, get_transactions_by_sender,
}

-- The values are UTF-8.
abbrev pub TextEntry : Text × Text → Type 0
TextEntry (key, value) = is_utf8 value ≡ true

-- The values of the entries.
abbrev values : List (Text × Text) → List Text
values [] = []
values ((key, value) ∷ es) = value ∷ values es

hashes_in-values :
    (es : List (Text × Text)) → AllEntries TextEntry es → hashes_in (map some es) ≡ ok (values es)
unfolding hashes_in from_utf8
hashes_in-values [] all = refl
hashes_in-values ((k, v) ∷ es) (here, all) = ground (arith, here, hashes_in-values es all)

prefixed-AllEntries :
    (p : Text) (es : List (Text × Text))
    → AllEntries TextEntry es
    → AllEntries TextEntry (prefixed p es)
unfolding prefixed
prefixed-AllEntries p [] all = tt
prefixed-AllEntries p ((k, v) ∷ es) (here, all) = elim (Bool-cases (starts_with k p)) [
  | inl yes_prefix ↦ rw yes_prefix (here, prefixed-AllEntries p es all)
  | inr other ↦ rw other (prefixed-AllEntries p es all)
]

-- A written entry with the prefix is among the prefixed ones.
contains-put_entry :
    (p k v : Text) (es : List (Text × Text))
    → starts_with k p ≡ true
    → contains (values (prefixed p (put_entry k v es))) v ≡ true
unfolding contains prefixed put_entry
contains-put_entry p k v [] h = ground (arith, text_eq_refl v)
contains-put_entry p k v ((j, w) ∷ es) h =
    ground (arith, text_eq_refl v, contains-put_entry p k v es h)

starts_with-append : (p s t : Text) → starts_with s p ≡ true → starts_with (s ++ t) p ≡ true
unfolding starts_with
starts_with-append [] s t h = refl
starts_with-append (d ∷ q) [] t h = absurd (cc (h))
starts_with-append (d ∷ q) (c ∷ s) t h = ground (arith, starts_with-append q s t)

starts_with-append-append :
    (q s p : Text) → starts_with s p ≡ true → starts_with (q ++ s) (q ++ p) ≡ true
unfolding starts_with
starts_with-append-append [] s p h = h
starts_with-append-append (c ∷ q) s p h = ground (arith, starts_with-append-append q s p h)

module _ ⦃sled : Sled⦄ ⦃codec : Codec Transaction⦄ (works : Works sled)
    (lossless : Lossless codec) where
  open works use {
    find, put, entries, get_ok, insert_ok, scan_ok, put_entry-entries, find-put, entries-put,
  }
  open lossless use {encode, to_vec_ok, from_slice_ok}

  -- The database after a transaction was written.
  abbrev pub with_transaction : Transaction → KyveraDb sled → KyveraDb sled
  with_transaction tx db = record db {
    transactions = put (put db.transactions tx.hash (encode tx)) (sender_key tx) tx.hash;
  }

  -- The hashes that a look-up by sender lists.
  abbrev pub listed : Text → KyveraDb sled → List Text
  listed address db = values (prefixed (sender_prefix ++ address) (entries db.transactions))

  pub save_transaction_ok :
      (tx : Transaction) (db : KyveraDb sled)
      → is_empty tx.hash ≡ false
      → save_transaction tx db ≡ (ok tt, with_transaction tx db)
  unfolding save_transaction write_transactions write
  save_transaction_ok tx db named = rw (
    named,
    to_vec_ok tx,
    insert_ok db.transactions tx.hash (encode tx),
    insert_ok (put db.transactions tx.hash (encode tx)) (sender_key tx) tx.hash,
  )

  get_transaction_saved :
      (tx : Transaction) (db : KyveraDb sled)
      → text_eq (sender_key tx) tx.hash ≡ false
      → (get_transaction tx.hash (with_transaction tx db)).0 ≡ ok (some tx)
  unfolding get_transaction decode_found
  get_transaction_saved tx db apart = rw (
    get_ok (with_transaction tx db).transactions tx.hash,
    find-put (put db.transactions tx.hash (encode tx)) (sender_key tx) tx.hash tx.hash,
    apart,
    find-put db.transactions tx.hash (encode tx) tx.hash,
    text_eq_refl tx.hash,
    from_slice_ok tx,
  )

  get_transactions_by_sender_ok :
      (address : Text) (db : KyveraDb sled)
      → AllEntries TextEntry (entries db.transactions)
      → (get_transactions_by_sender address db).0 ≡ ok (listed address db)
  unfolding get_transactions_by_sender
  get_transactions_by_sender_ok address db all =
      rw (scan_ok db.transactions (sender_prefix ++ address)) (
        hashes_in-values (prefixed (sender_prefix ++ address) (entries db.transactions))
          (prefixed-AllEntries (sender_prefix ++ address) (entries db.transactions) all))

  listed_saved :
      (tx : Transaction) (db : KyveraDb sled) (address : Text)
      → starts_with tx.sender address ≡ true
      → contains (listed address (with_transaction tx db)) tx.hash ≡ true
  unfolding sender_key
  listed_saved tx db address prefix =
      rw (put_entry-entries (put db.transactions tx.hash (encode tx)) (sender_key tx) tx.hash) (
        contains-put_entry (sender_prefix ++ address) (sender_key tx) tx.hash
          (entries (put db.transactions tx.hash (encode tx)))
          (starts_with-append-append sender_prefix (tx.sender ++ (codes ":" ++ padded tx.nonce))
            address (starts_with-append address tx.sender (codes ":" ++ padded tx.nonce) prefix)))

  -- With a tree store that behaves as documented, a lossless serialisation and UTF-8 values in the
  -- tree: saving a transaction with a non-empty UTF-8 hash, that is not its own sender key, succeeds;
  -- afterwards the look-up by its hash finds it, and the look-up by any prefix of its sender's address
  -- succeeds with a list that has its hash (so a shorter address lists other senders' transactions).
  pub get_transaction-save_transaction :
      (tx : Transaction) (db : KyveraDb sled) (address : Text)
      → AllEntries TextEntry (entries db.transactions)
      → is_utf8 (encode tx) ≡ true
      → is_utf8 tx.hash ≡ true
      → is_empty tx.hash ≡ false
      → text_eq (sender_key tx) tx.hash ≡ false
      → starts_with tx.sender address ≡ true
      → (save_transaction tx db ≡ (ok tt, with_transaction tx db))
        × ((get_transaction tx.hash (with_transaction tx db)).0 ≡ ok (some tx))
        × ((get_transactions_by_sender address (with_transaction tx db)).0
            ≡ ok (listed address (with_transaction tx db)))
        × (contains (listed address (with_transaction tx db)) tx.hash ≡ true)
  get_transaction-save_transaction tx db address all serial hash named apart prefix = (
    save_transaction_ok tx db named,
    get_transaction_saved tx db apart,
    get_transactions_by_sender_ok address (with_transaction tx db) (
        entries-put TextEntry (put db.transactions tx.hash (encode tx)) (sender_key tx) tx.hash
          (entries-put TextEntry db.transactions tx.hash (encode tx) all serial) hash),
    listed_saved tx db address prefix,
  )
