-- ===== src/Examples/Unstaking.antt =====
-- A request to unstake and its release on the small database.
use kyvera_core.Prelude.{
  ◌+◌, ◌<◌, ◌≡◌, refl, true, false, List, [], ◌∷◌, some, Text, text_eq, text_lt, starts_with, ok,
  arith,
}
use kyvera_core.Types.Account.{Account, u64_mod, igniter, new}
use kyvera_core.Storage.Db.{AllEntries, entry_at, put_entry, prefixed}
use kyvera_core.Storage.Db.Ordered.{increasing, above}
use kyvera_core.Storage.Store.Laws.{supply, distinct, contains}
use kyvera_core.Storage.AccountStore.Database.Lawful.{
  db_store-Laws, saved, account_at, saved-Decodes, Decodes,
}
use kyvera_core.Storage.TxStore.{padded}
use kyvera_core.Consensus.Staking.{
  pending_key, new_pending, request_unstake, process_matured_unstakes,
}
use kyvera_core.Consensus.Staking.Entries.{awaiting, amount_at, amount_in, matured, unmatured}
use kyvera_core.Consensus.Staking.Unbonding.{waiting, Payable}
use kyvera_core.Consensus.Staking.Conserved.{process_matured_unstakes-supply}
use kyvera_core.Consensus.Staking.Requests.{due_later, request_unstake-effect}
use kyvera_core.Examples.ToyDb.{
  Db, toy_sled, toy_codec, toy_works, toy_lossless, empty_db, empty_db-Decodes,
}
use kyvera_core.Examples.Codecs.{pending_codec, pending_lossless}
use kyvera_core.Examples.Ledger.{toy_laws, alice, bob}

abbrev staker : Account
staker = record {
  address = alice;
  balance = 7;
  staked_balance = 600_000_000_000;
  nonce = 0;
  validator_tier = some igniter;
  is_contract = false;
  last_reward_epoch = 0;
}

abbrev staked_db : Db
staked_db = saved toy_works toy_lossless staker empty_db

staked_db-Decodes : Decodes toy_works toy_lossless staked_db
staked_db-Decodes = saved-Decodes toy_works toy_lossless empty_db staker empty_db-Decodes

abbrev holders : List Text
holders = alice ∷ bob ∷ []

abbrev once : distinct holders ≡ true
unfolding distinct contains text_eq
once = refl

-- Bob has a withdrawal with the same epochs, which stays.
request_unstake-effect_example :
    (db' : Db) × (request_unstake alice 200_000_000_000 5 staked_db
      ≡ (ok (due_later alice 200_000_000_000 5), db'))
    × (entry_at db'.metadata (pending_key (due_later alice 200_000_000_000 5))
        ≡ some (pending_lossless.encode (due_later alice 200_000_000_000 5)))
    × (entry_at db'.metadata (pending_key (due_later bob 4 5))
        ≡ entry_at staked_db.metadata (pending_key (due_later bob 4 5)))
    × (supply toy_laws holders db'
          + awaiting (waiting toy_works toy_lossless pending_lossless db')
          + amount_at staked_db.metadata (pending_key (due_later alice 200_000_000_000 5))
        ≡ supply toy_laws holders staked_db
          + awaiting (waiting toy_works toy_lossless pending_lossless staked_db))
request_unstake-effect_example =
    request_unstake-effect toy_works toy_lossless pending_lossless holders once staked_db alice
      200_000_000_000 5 staker (due_later bob 4 5) staked_db-Decodes (unfold increasing in refl)
      (unfold contains text_eq in refl) (unfold account_at entry_at put_entry text_eq in refl)
      (omega arith) (omega arith) (unfold due_later in omega arith)
      (unfold due_later in omega arith) (unfold due_later in λ same. cc (same.0))

-- Alice waits for epoch 15, Bob for epoch 30.
abbrev waiting_db : Db
waiting_db = record staked_db {
  metadata =
      put_entry (pending_key (new_pending bob 4 20))
        (pending_lossless.encode (new_pending bob 4 20))
        (put_entry (pending_key (new_pending alice 9 5))
          (pending_lossless.encode (new_pending alice 9 5)) []);
}

waiting_increasing : increasing waiting_db.metadata ≡ true
unfolding increasing above put_entry pending_key padded new_pending text_lt text_eq
waiting_increasing = refl

waiting-Payable :
    AllEntries
      (Payable toy_works toy_lossless pending_lossless holders)
      (waiting toy_works toy_lossless pending_lossless waiting_db)
unfolding put_entry prefixed starts_with pending_key padded new_pending text_lt text_eq contains
waiting-Payable = ((new_pending alice 9 5, refl, refl), ((new_pending bob 4 20, refl, refl), tt))

waiting_bounded :
    supply toy_laws holders waiting_db
      + awaiting (waiting toy_works toy_lossless pending_lossless waiting_db)
    < u64_mod
unfolding supply db_store-Laws account_at entry_at awaiting amount_in put_entry prefixed starts_with
    pending_key padded new_pending text_lt text_eq new
waiting_bounded = omega arith

process_matured_unstakes-supply_example :
    (db' : Db) × (process_matured_unstakes 15 waiting_db ≡ (
      ok (awaiting (matured 15 (waiting toy_works toy_lossless pending_lossless waiting_db))),
      db',
    ))
    × (waiting toy_works toy_lossless pending_lossless db'
        ≡ unmatured 15 (waiting toy_works toy_lossless pending_lossless waiting_db))
    × (supply toy_laws holders db' + awaiting (waiting toy_works toy_lossless pending_lossless db')
        ≡ supply toy_laws holders waiting_db
          + awaiting (waiting toy_works toy_lossless pending_lossless waiting_db))
process_matured_unstakes-supply_example =
    process_matured_unstakes-supply toy_works toy_lossless pending_lossless holders once waiting_db
      15 (record { at = staked_db-Decodes.at; all = staked_db-Decodes.all }) waiting_increasing
      waiting-Payable waiting_bounded
