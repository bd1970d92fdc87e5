-- ===== src/Examples/Effects.antt =====
-- The abstract ledger and the payment on the small database.
use kyvera_core.Prelude.{◌≡◌, ◌<◌, refl, arith, text_eq, text_lt, ok}
use kyvera_core.Types.Account.{u64_mod, new}
use kyvera_core.Types.Transaction.{transfer}
use kyvera_core.Storage.Db.{entry_at, put_entry}
use kyvera_core.Storage.Store.Laws.{supply, distinct, contains}
use kyvera_core.Storage.AccountStore.Database.{db_store}
use kyvera_core.Storage.AccountStore.Database.Lawful.{db_store-Laws, account_at}
use kyvera_core.Storage.StateTrie.{apply_transaction}
use kyvera_core.Storage.StateTrie.Ledger.{effect, affordable}
use kyvera_core.Storage.StateTrie.Ledger.Refinement.{outcome, view, apply_transaction-effect}
use kyvera_core.Storage.StateTrie.Ledger.Progress.{apply_transaction-Succeeds}
use kyvera_core.Examples.ToyDb.{Db, toy_sled, toy_codec}
use kyvera_core.Examples.Ledger.{toy_laws, one_account, one_account-Wf, pay, parties}

apply_transaction-effect_example :
    outcome toy_laws (apply_transaction (pay 100) one_account)
    ≡ effect transfer (pay 100) (view toy_laws one_account)
apply_transaction-effect_example =
    apply_transaction-effect toy_laws (pay 100) one_account one_account-Wf

parties_bounded : supply toy_laws parties one_account < u64_mod
unfolding supply db_store-Laws account_at entry_at put_entry text_eq text_lt new
parties_bounded = omega arith

apply_transaction-Succeeds_example :
    (after : Db) × (apply_transaction (pay 100) one_account ≡ (ok tt, after))
apply_transaction-Succeeds_example =
    apply_transaction-Succeeds toy_laws parties (unfold distinct contains text_eq in refl)
      (unfold contains text_eq in refl) (pay 100) one_account one_account-Wf
      (unfold contains text_eq in refl) (unfold contains text_eq in refl) parties_bounded
      (unfold db_store-Laws account_at entry_at put_entry text_eq text_lt in refl)
      (unfold affordable db_store-Laws account_at entry_at put_entry text_eq text_lt in refl)
