-- ===== src/Storage/AccountStore/Database.antt =====
-- `save_account` and `get_account` of src/storage/account_store.rs and the metadata calls of
-- src/storage/db.rs, over the database; they implement the interface `Store`.
pub mod Lawful
pub mod Funds
use kyvera_core.Prelude.{Option, none, some, List, [], ◌∷◌, Text, Result, ok, err}
use kyvera_core.Types.Account.{Account}
use kyvera_core.Storage.Exec.{
  Exec, continue, ◌>>=◌, ◌>>◌, pure, lift, Fault, io_failed, serialize_failed, deserialize_failed,
}
use kyvera_core.Storage.Db.{Sled, Codec, KyveraDb, or_fault, write, read, delete}
use kyvera_core.Storage.Store.{Store}

module _ ⦃sled : Sled⦄ ⦃codec : Codec Account⦄ where
  -- `serde_json::from_slice` of the bytes that were read, if any.
  unfoldable pub decode_account : Option Text → Result Fault (Option Account)
  decode_account none = ok none
  decode_account (some bytes) = elim (codec.from_slice bytes) [
    | none ↦ err deserialize_failed
    | some account ↦ ok (some account)
  ]

  unfoldable pub get_account : Text → Exec (KyveraDb sled) (Option Account)
  unfolding read decode_account
  get_account address db =
      (do found ← lift (read db.accounts address); lift (decode_account found)) db

  unfoldable pub save_account : Account → Exec (KyveraDb sled) (Unit {0})
  unfolding write
  save_account account db =
      (do
        serialized ← lift (or_fault (codec.to_vec account) serialize_failed)
        tree ← lift (write db.accounts account.address serialized)
        λ db'. (ok tt, record db' { accounts = tree }))
        db

  -- `KyveraDb::delete(&db.accounts, ..)`
  unfoldable pub delete_account : Text → Exec (KyveraDb sled) (Unit {0})
  unfolding delete
  delete_account address db =
      (do tree ← lift (delete db.accounts address); λ db'. (ok tt, record db' { accounts = tree }))
        db

  -- `for result in db.accounts.iter()` with the deserialisation of each value.
  unfoldable pub decode_entries : List (Option (Text × Text)) → Result Fault (List Account)
  decode_entries [] = ok []
  decode_entries (none ∷ rest) = err io_failed
  decode_entries (some (key, value) ∷ rest) =
      let others = decode_entries rest in
      elim (codec.from_slice value) [
        | none ↦ err deserialize_failed
        | some account ↦ elim others [ ok accounts ↦ ok (account ∷ accounts) | err e ↦ err e ]
      ]

  unfoldable pub list_accounts : Exec (KyveraDb sled) (List Account)
  unfolding decode_entries
  list_accounts db = (decode_entries (sled.iter db.accounts), db)

  unfoldable pub get_metadata : Text → Exec (KyveraDb sled) (Option Text)
  unfolding read
  get_metadata key db = lift (read db.metadata key) db

  unfoldable pub set_metadata : Text → Text → Exec (KyveraDb sled) (Unit {0})
  unfolding write
  set_metadata key value db =
      (do tree ← lift (write db.metadata key value); λ db'. (ok tt, record db' { metadata = tree }))
        db

  instance abbrev pub db_store : Store (KyveraDb sled)
  db_store = record {
    get_account = get_account;
    save_account = save_account;
    delete_account = delete_account;
    list_accounts = list_accounts;
    get_metadata = get_metadata;
    set_metadata = set_metadata;
  }
