-- ===== src/Examples/Ledger.antt =====
-- The transition of accounts on the small database.
use kyvera_core.Prelude.{
  ℕ, ◌+◌, ◌/◌, ◌<◌, ◌≡◌, ◌≢◌, refl, false, List, [], ◌∷◌, none, arith, Text, codes, text_eq, ok,
  err,
}
use kyvera_core.Prelude.Int.{pos}
use kyvera_core.Types.Account.{Account, u64_mod, new}
use kyvera_core.Types.Transaction.{Transaction, transfer}
use kyvera_core.Storage.Exec.{insufficient_balance, receiver_overflow}
use kyvera_core.Storage.Store.Laws.{Laws, supply, distinct, contains}
use kyvera_core.Storage.AccountStore.{get_or_create_account, credit_account}
use kyvera_core.Storage.AccountStore.Database.{db_store, get_account, save_account}
use kyvera_core.Storage.AccountStore.Database.Lawful.{db_store-Laws, saved, account_at}
use kyvera_core.Storage.StateTrie.{
  treasury_address, apply_transaction, apply_transfer, apply_fee_split,
}
use kyvera_core.Storage.StateTrie.Supply.{apply_transaction-supply}
use kyvera_core.Storage.StateTrie.Errors.{apply_transaction_atomic, apply_transaction_overflow}
use kyvera_core.Storage.StateTrie.Nonces.{apply_transaction_replay}
use kyvera_core.Examples.ToyDb.{
  Db, toy_sled, toy_codec, toy_works, toy_lossless, empty_db, empty_db-Decodes,
}
use kyvera_core.Storage.Db.{entry_at, put_entry, drop_entry}
use kyvera_core.Prelude.{text_lt}

abbrev pub toy_laws : Laws (db_store ⦃sled = toy_sled⦄ ⦃codec = toy_codec⦄)
toy_laws = db_store-Laws toy_works toy_lossless

abbrev pub alice : Text
alice = codes "alice"

abbrev pub bob : Text
bob = codes "bob"

abbrev pub account_with : Text → ℕ → ℕ → Account
account_with address balance nonce = record {
  address = address;
  balance = balance;
  staked_balance = 0;
  nonce = nonce;
  validator_tier = none;
  is_contract = false;
  last_reward_epoch = 0;
}

-- Alice owns 1000 units.
abbrev pub one_account : Db
one_account = saved toy_works toy_lossless (account_with alice 1000 0) empty_db

pub one_account-Wf : toy_laws.Wf one_account
unfolding db_store-Laws
one_account-Wf = toy_laws.saved-Wf empty_db (account_with alice 1000 0) empty_db-Decodes

abbrev pub pay : ℕ → Transaction
pay amount = record {
  hash = codes "h";
  sender = alice;
  receiver = bob;
  amount = amount;
  fee = 20;
  nonce = 0;
  signature = codes "s";
  timestamp = pos 5;
  transaction_type = transfer;
  payload = [];
}

-- After paying Bob 100 with a fee of 20.
abbrev pub paid : Db
paid = saved toy_works toy_lossless (account_with treasury_address 2 0) (
    saved toy_works toy_lossless (account_with bob 100 0)
      (saved toy_works toy_lossless (account_with alice 880 1) one_account))

pub paid-Wf : toy_laws.Wf paid
unfolding db_store-Laws
paid-Wf = toy_laws.saved-Wf _ (account_with treasury_address 2 0) (
    toy_laws.saved-Wf _ (account_with bob 100 0)
      (toy_laws.saved-Wf one_account (account_with alice 880 1) one_account-Wf))

abbrev pub parties : List Text
parties = alice ∷ bob ∷ treasury_address ∷ []

pay_run : apply_transaction (pay 100) one_account ≡ (ok tt, paid)
unfolding apply_transaction apply_transfer apply_fee_split get_or_create_account credit_account
    get_account save_account new entry_at put_entry drop_entry text_lt text_eq
pay_run = refl

-- Alice cannot pay 5000.
abbrev after_refusal : Db
after_refusal = (apply_transaction (pay 5000) one_account).1

pay_too_much :
    apply_transaction (pay 5000) one_account ≡ (err (insufficient_balance 1000 5020), after_refusal)
unfolding apply_transaction apply_transfer apply_fee_split get_or_create_account credit_account
    get_account save_account new entry_at put_entry drop_entry text_lt text_eq
pay_too_much = refl

apply_transaction-supply_example :
    supply toy_laws parties paid + 20 ≡ supply toy_laws parties one_account + 20 / 10
apply_transaction-supply_example =
    apply_transaction-supply toy_laws parties (unfold distinct contains text_eq in refl)
      (unfold contains text_eq in refl) (pay 100) one_account paid one_account-Wf
      (unfold contains text_eq in refl) (unfold contains text_eq in refl) pay_run

one_account_room : supply toy_laws parties one_account < u64_mod
unfolding supply db_store-Laws account_at entry_at put_entry drop_entry text_lt text_eq new
one_account_room = omega arith

apply_transaction_atomic_example : after_refusal ≡ one_account
apply_transaction_atomic_example =
    apply_transaction_atomic toy_laws parties (unfold distinct contains text_eq in refl)
      (unfold contains text_eq in refl) (pay 5000) one_account after_refusal
      (insufficient_balance 1000 5020) one_account-Wf one_account_room
      (unfold contains text_eq in refl) (unfold contains text_eq in refl) pay_too_much

apply_transaction_replay_example : apply_transaction (pay 100) paid ≢ (ok tt, paid)
apply_transaction_replay_example =
    apply_transaction_replay toy_laws (pay 100) one_account paid paid one_account-Wf paid-Wf
      (omega arith) pay_run

-- Bob's balance has no room for the payment.
abbrev full_receiver : Db
full_receiver = saved toy_works toy_lossless (account_with bob 18446744073709551600 0) one_account

full_receiver-Wf : toy_laws.Wf full_receiver
unfolding db_store-Laws
full_receiver-Wf =
    toy_laws.saved-Wf one_account (account_with bob 18446744073709551600 0) one_account-Wf

apply_transaction_overflow_example :
    (s' : Db) × (apply_transaction (pay 100) full_receiver ≡ (err receiver_overflow, s'))
    × (supply toy_laws parties s' + 120 ≡ supply toy_laws parties full_receiver)
unfolding db_store-Laws account_at entry_at put_entry drop_entry text_lt text_eq
apply_transaction_overflow_example =
    apply_transaction_overflow toy_laws parties (pay 100) full_receiver
      (unfold distinct contains text_eq in refl) (unfold contains text_eq in refl) full_receiver-Wf
      refl (omega arith) (omega arith) refl refl (omega arith)
