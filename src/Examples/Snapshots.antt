-- ===== src/Examples/Snapshots.antt =====
-- Reading back what was written, and a rollback, on the small database.
use kyvera_core.Prelude.{◌≡◌, refl, List, [], ◌∷◌, some, Text, text_eq, ok, if◌then◌else◌}
use kyvera_core.Storage.Store.Laws.{contains}
use kyvera_core.Storage.AccountStore.Database.{db_store, get_account, save_account}
use kyvera_core.Storage.AccountStore.Database.Lawful.{
  db_store-Laws, get_account-save_account, saved,
}
use kyvera_core.Storage.StateTrie.{
  StateSnapshot, take_snapshot, rollback_to_snapshot, state_root_key,
}
use kyvera_core.Storage.StateTrie.Rollback.{rollback-take_snapshot, root_of}
use kyvera_core.Examples.ToyDb.{
  Db, toy_works, toy_lossless, empty_db, empty_db-Decodes, toy_sled, toy_codec,
}
use kyvera_core.Storage.Db.{entry_at, put_entry, drop_entry}
use kyvera_core.Prelude.{text_lt}
use kyvera_core.Examples.Hashing.{toy_hasher}
use kyvera_core.Examples.Ledger.{
  toy_laws, alice, bob, account_with, one_account, one_account-Wf, paid, paid-Wf,
}

get_account-save_account_example :
    (save_account (account_with alice 7 0) empty_db
      ≡ (ok tt, saved toy_works toy_lossless (account_with alice 7 0) empty_db))
    × (get_account bob (saved toy_works toy_lossless (account_with alice 7 0) empty_db) ≡ (
        if text_eq alice bob
        then (
          ok (some (account_with alice 7 0)),
          saved toy_works toy_lossless (account_with alice 7 0) empty_db,
        )
        else (
          (get_account bob empty_db).0,
          saved toy_works toy_lossless (account_with alice 7 0) empty_db,
        )))
get_account-save_account_example =
    get_account-save_account toy_works toy_lossless empty_db (account_with alice 7 0) bob
      empty_db-Decodes

abbrev covered : List Text
covered = alice ∷ bob ∷ []

-- The snapshot is taken before the payment and rolled back to after it.
rollback-take_snapshot_example :
    (snapshot : StateSnapshot) × (take_snapshot 1 covered one_account ≡ (ok snapshot, one_account))
    × (restored : Db) × (rollback_to_snapshot snapshot paid ≡ (ok tt, restored))
    × ((b : Text)
        → toy_laws.account restored b ≡ (
            if contains covered b then toy_laws.account one_account b else toy_laws.account paid b))
    × (toy_laws.metadata restored state_root_key
        ≡ some (root_of toy_laws (toy_laws.metadata one_account state_root_key)))
rollback-take_snapshot_example =
    rollback-take_snapshot toy_laws 1 covered one_account paid one_account-Wf paid-Wf
      (unfold db_store-Laws entry_at put_entry drop_entry text_lt in refl)
