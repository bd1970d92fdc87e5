-- ===== src/Storage/Store.antt =====
-- The interface between the durable store and its clients: what the state transition, the rewards
-- and the staking call of src/storage/account_store.rs and src/storage/db.rs. Storage/AccountStore
-- implements it over the database.
pub mod Laws
use kyvera_core.Prelude.{List, Option, none, some, Text}
use kyvera_core.Types.Account.{Account, new}
use kyvera_core.Storage.Exec.{Exec}

pub record Store (S : Type 0) : Type 0 where
  pub get_account : Text → Exec S (Option Account)
  pub save_account : Account → Exec S (Unit {0})
  pub delete_account : Text → Exec S (Unit {0})
  pub list_accounts : Exec S (List Account)
  pub get_metadata : Text → Exec S (Option Text)
  pub set_metadata : Text → Text → Exec S (Unit {0})

-- An account that was never stored starts fresh: `unwrap_or_else(|| Account::new(..))`.
abbrev pub or_new : Text → Option Account → Account
or_new address none = new address
or_new address (some account) = account
