-- ===== src/Examples/Rewards.antt =====
-- Epoch rewards and slashing on the small database.
use kyvera_core.Prelude.{
  false, true, ◌<◌, ◌^◌, is_empty, ◌+◌, ◌-◌, ◌≡◌, refl, arith, List, [], ◌∷◌, some, ok, Text, codes,
  text_eq,
}
use kyvera_core.Prelude.Int.{pos}
use kyvera_core.Types.Account.{Account, new, igniter, reward_bonus_bps, update_validator_tier}
use kyvera_core.Types.Transaction.{Transaction, transfer}
use kyvera_core.Storage.Store.Laws.{holder, supply, distinct, contains}
use kyvera_core.Storage.AccountStore.{credit_account, get_or_create_account}
use kyvera_core.Storage.AccountStore.Database.{
  db_store, get_account, save_account, list_accounts, decode_entries,
}
use kyvera_core.Storage.AccountStore.Database.Lawful.{db_store-Laws, saved, accounts_of}
use kyvera_core.Storage.StateTrie.{treasury_address}
use kyvera_core.Consensus.Coinbase.{
  coinbase_sender, apply_coinbase, calculate_validator_fee_share, credit_positive,
}
use kyvera_core.Consensus.Validators.{
  distribute_validator_rewards, apply_epoch_rewards, slash_validator, calculate_validator_weight,
  share_of, sum_weights, validators_of, minor_slash_bps,
}
use kyvera_core.Consensus.Validators.Shares.{weight_total}
use kyvera_core.Consensus.Validators.Supply.{all_listed, weights_at}
use kyvera_core.Consensus.Validators.Gains.{paid_to, spread, spread_to}
use kyvera_core.Consensus.Validators.Effect.{weights_after, apply_epoch_rewards-effect}
use kyvera_core.Consensus.Validators.Slashing.{slash_validator-supply}
use kyvera_core.Examples.ToyDb.{Db, toy_sled, toy_codec, toy_works, toy_lossless}
use kyvera_core.Storage.Db.{entry_at, put_entry, drop_entry}
use kyvera_core.Prelude.{text_lt}
use kyvera_core.Examples.Ledger.{toy_laws, alice, bob, one_account, one_account-Wf}

-- Bob is an Igniter, beside Alice, who has no stake.
abbrev bob_staked : Account
bob_staked = record {
  address = bob;
  balance = 3;
  staked_balance = 500_000_000_000;
  nonce = 0;
  validator_tier = some igniter;
  is_contract = false;
  last_reward_epoch = 0;
}

abbrev staked_db : Db
staked_db = saved toy_works toy_lossless bob_staked one_account

staked_db-Wf : toy_laws.Wf staked_db
unfolding db_store-Laws
staked_db-Wf = toy_laws.saved-Wf one_account bob_staked one_account-Wf

abbrev receivers : List Text
receivers = alice ∷ bob ∷ treasury_address ∷ []

abbrev coinbase : Transaction
coinbase = record {
  hash = codes "c";
  sender = coinbase_sender;
  receiver = alice;
  amount = 50_000_000_000;
  fee = 0;
  nonce = 1;
  signature = codes "coinbase";
  timestamp = pos 3;
  transaction_type = transfer;
  payload = [];
}

-- The states after the calls.
abbrev distributed_db : Db
distributed_db = (distribute_validator_rewards 70 staked_db).1

abbrev rewarded_db : Db
rewarded_db = (apply_epoch_rewards coinbase 1_000 staked_db).1

abbrev slashed_db : Db
slashed_db = (slash_validator bob minor_slash_bps staked_db).1

distributed : distribute_validator_rewards 70 staked_db ≡ (ok 70, distributed_db)
unfolding distribute_validator_rewards credit_positive credit_account get_or_create_account
    get_account save_account list_accounts decode_entries new entry_at put_entry drop_entry text_lt
    text_eq is_empty apply_coinbase calculate_validator_weight share_of sum_weights validators_of
    reward_bonus_bps update_validator_tier
distributed = refl

rewarded : apply_epoch_rewards coinbase 1_000 staked_db ≡ (ok tt, rewarded_db)
unfolding apply_epoch_rewards distribute_validator_rewards credit_positive credit_account
    get_or_create_account get_account save_account list_accounts decode_entries new entry_at
    put_entry drop_entry text_lt text_eq is_empty apply_coinbase calculate_validator_weight share_of
    sum_weights validators_of reward_bonus_bps update_validator_tier calculate_validator_fee_share
rewarded = refl

slashed : slash_validator bob minor_slash_bps staked_db ≡ (ok 5_000_000_000, slashed_db)
unfolding slash_validator credit_positive credit_account get_or_create_account get_account
    save_account list_accounts decode_entries new entry_at put_entry drop_entry text_lt text_eq
    is_empty apply_coinbase calculate_validator_weight share_of sum_weights validators_of
    reward_bonus_bps update_validator_tier
slashed = refl

listed_before : all_listed receivers (weights_at toy_laws staked_db) ≡ true
unfolding all_listed weight_total contains db_store-Laws accounts_of validators_of
    calculate_validator_weight reward_bonus_bps apply_coinbase credit_positive credit_account
    get_or_create_account get_account save_account new entry_at put_entry drop_entry text_lt text_eq
listed_before = refl

weights_before : weight_total (weights_at toy_laws staked_db) < 2 ^ 128
unfolding all_listed weight_total contains db_store-Laws accounts_of validators_of
    calculate_validator_weight reward_bonus_bps apply_coinbase credit_positive credit_account
    get_or_create_account get_account save_account new entry_at put_entry drop_entry text_lt text_eq
weights_before = omega arith

abbrev mined_db : Db
mined_db = (apply_coinbase coinbase 0 staked_db).1

listed_after : all_listed receivers (weights_at toy_laws mined_db) ≡ true
unfolding all_listed weight_total contains db_store-Laws accounts_of validators_of
    calculate_validator_weight reward_bonus_bps apply_coinbase credit_positive credit_account
    get_or_create_account get_account save_account new entry_at put_entry drop_entry text_lt text_eq
listed_after = refl

total_after : weight_total (weights_at toy_laws mined_db) < 2 ^ 128
unfolding all_listed weight_total contains db_store-Laws accounts_of validators_of
    calculate_validator_weight reward_bonus_bps apply_coinbase credit_positive credit_account
    get_or_create_account get_account save_account new entry_at put_entry drop_entry text_lt text_eq
total_after = omega arith

bob_word : (holder toy_laws staked_db bob).staked_balance < 2 ^ 64
unfolding all_listed weight_total contains db_store-Laws accounts_of validators_of
    calculate_validator_weight reward_bonus_bps apply_coinbase credit_positive credit_account
    get_or_create_account get_account save_account new entry_at put_entry drop_entry text_lt text_eq
bob_word = omega arith

-- The treasury receives what is left of 400.
apply_epoch_rewards-effect_example :
    (supply toy_laws receivers rewarded_db
      ≡ supply toy_laws receivers staked_db + 50_000_000_000 + calculate_validator_fee_share 1_000)
    × ((holder toy_laws rewarded_db treasury_address).balance
        ≡ (holder toy_laws staked_db treasury_address).balance
          + (paid_to treasury_address alice 50_000_000_000
              + spread_to treasury_address
                  (calculate_validator_fee_share 1_000)
                  (weights_after toy_laws coinbase staked_db)
              + paid_to treasury_address treasury_address (
                  calculate_validator_fee_share 1_000
                  - spread
                      (calculate_validator_fee_share 1_000)
                      (weights_after toy_laws coinbase staked_db))))
apply_epoch_rewards-effect_example =
    apply_epoch_rewards-effect toy_laws receivers (unfold distinct contains text_eq in refl)
      coinbase 1_000 staked_db rewarded_db treasury_address staked_db-Wf
      (unfold contains text_eq in refl) (unfold contains text_eq in refl) listed_after total_after
      rewarded

slash_validator-supply_example :
    supply toy_laws receivers slashed_db ≡ supply toy_laws receivers staked_db
slash_validator-supply_example =
    slash_validator-supply toy_laws receivers (unfold distinct contains text_eq in refl) bob
      minor_slash_bps 5_000_000_000 staked_db slashed_db staked_db-Wf (omega arith) bob_word
      (unfold contains text_eq in refl) (unfold contains text_eq in refl) slashed
