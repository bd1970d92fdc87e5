-- ===== src/Storage/AccountStore/Database/Funds.antt =====
-- The sum of the funds over the database.
use kyvera_core.Prelude.{◌≡◌, refl, List, [], ◌∷◌, Text}
use kyvera_core.Types.Account.{Account}
use kyvera_core.Storage.Db.{Sled, Codec, KyveraDb, Works, Lossless}
use kyvera_core.Storage.Store.Laws.{supply}
use kyvera_core.Storage.AccountStore.Database.{db_store}
use kyvera_core.Storage.AccountStore.Database.Lawful.{db_store-Laws, account_at}

module _ ⦃sled : Sled⦄ ⦃codec : Codec Account⦄ (works : Works sled)
    (lossless : Lossless codec) where
  -- The sum reads the account tree only.
  pub supply_same_accounts :
      (addresses : List Text) (db db' : KyveraDb sled)
      → db'.accounts ≡ db.accounts
      → supply (db_store-Laws works lossless) addresses db'
        ≡ supply (db_store-Laws works lossless) addresses db
  unfolding supply db_store-Laws account_at
  supply_same_accounts [] db db' same = refl
  supply_same_accounts (a ∷ rest) db db' same = rw (supply_same_accounts rest db db' same) (rw same)
