-- ===== src/Examples/Stores.antt =====
-- The stores of blocks and transactions, the state root and the snapshots on the small database.
use kyvera_core.Prelude.{
  ◌≡◌, refl, true, false, Text, Result, err, [], ◌∷◌, some, codes, text_eq, text_lt, is_utf8,
  is_empty, starts_with, ok, if◌then◌else◌,
}
use kyvera_core.Prelude.Int.{pos}
use kyvera_core.Storage.Exec.{Fault}
use kyvera_core.Types.Block.{BlockHeader, Block}
use kyvera_core.Storage.Db.{entry_at, put_entry}
use kyvera_core.Storage.Db.Ordered.{increasing, above}
use kyvera_core.Storage.Store.Laws.{contains}
use kyvera_core.Storage.BlockStore.{
  save_block, get_block_by_hash, get_block_by_height, block_exists,
}
use kyvera_core.Storage.BlockStore.Lookup.{with_block, get_block-save_block}
use kyvera_core.Storage.TxStore.{
  save_transaction, get_transaction, get_transactions_by_sender, sender_key, padded,
}
use kyvera_core.Storage.TxStore.History.{with_transaction, listed, get_transaction-save_transaction}
use kyvera_core.Storage.AccountStore.Database.Lawful.{saved}
use kyvera_core.Storage.StateTrie.{StateSnapshot}
use kyvera_core.Storage.StateRoot.{compute_state_root}
use kyvera_core.Storage.StateRoot.Order.{compute_state_root_canonical}
use mathlib.Core.List.{Permᴰ, reverse}
use kyvera_core.Storage.SnapshotStack.{snapshot_key, save_snapshot}
use kyvera_core.Storage.SnapshotStack.Slot.{save_snapshot_twice}
use kyvera_core.Examples.ToyDb.{Db, toy_sled, toy_codec, toy_works, toy_lossless, empty_db}
use kyvera_core.Examples.Codecs.{
  block_codec, block_lossless, transaction_codec, transaction_lossless, snapshot_codec,
  snapshot_lossless,
}
use kyvera_core.Examples.Hashing.{toy_hasher}
use kyvera_core.Examples.Ledger.{alice, bob, account_with, pay}

abbrev stored_header : BlockHeader
stored_header = record {
  index = 3;
  timestamp = pos 9;
  previous_hash = codes "00";
  merkle_root = codes "m";
  nonce = 4;
  difficulty = 1;
  is_epoch_block = false;
  epoch_index = 0;
  state_root = [];
}

abbrev stored_block : Block
stored_block = record {
  header = stored_header;
  transaction_hashes = codes "h" ∷ [];
  hash = codes "0abc";
  validator_signature = [];
  producer_address = alice;
  block_reward = 0;
}

get_block-save_block_example :
    (save_block stored_block empty_db
      ≡ (ok tt, with_block toy_works block_lossless stored_block empty_db))
    × ((get_block_by_hash
          (codes "other")
          (with_block toy_works block_lossless stored_block empty_db)).0
        ≡ (if text_eq (codes "0abc") (codes "other")
            then ok (some stored_block)
            else (get_block_by_hash (codes "other") empty_db).0))
    × ((get_block_by_height 3 (with_block toy_works block_lossless stored_block empty_db)).0
        ≡ ok (some stored_block))
    × ((block_exists (codes "0abc") (with_block toy_works block_lossless stored_block empty_db)).0
        ≡ ok true)
get_block-save_block_example =
    get_block-save_block toy_works block_lossless stored_block empty_db (codes "other")
      (unfold is_utf8 in refl)

-- A look-up by the first letters of Alice's address lists her payment.
get_transaction-save_transaction_example :
    (save_transaction (pay 100) empty_db
      ≡ (ok tt, with_transaction toy_works transaction_lossless (pay 100) empty_db))
    × ((get_transaction
          (codes "h")
          (with_transaction toy_works transaction_lossless (pay 100) empty_db)).0
        ≡ ok (some (pay 100)))
    × ((get_transactions_by_sender
          (codes "al")
          (with_transaction toy_works transaction_lossless (pay 100) empty_db)).0
        ≡ ok (
            listed toy_works transaction_lossless
              (codes "al")
              (with_transaction toy_works transaction_lossless (pay 100) empty_db)))
    × (contains
          (listed toy_works transaction_lossless
            (codes "al")
            (with_transaction toy_works transaction_lossless (pay 100) empty_db))
          (codes "h")
        ≡ true)
get_transaction-save_transaction_example =
    get_transaction-save_transaction toy_works transaction_lossless (pay 100) empty_db (codes "al")
      tt (unfold is_utf8 in refl) (unfold is_utf8 in refl) (unfold is_empty in refl)
      (unfold text_eq sender_key in refl) (unfold starts_with in refl)

abbrev two_accounts : Db
two_accounts =
    saved toy_works toy_lossless (account_with bob 5 0)
      (saved toy_works toy_lossless (account_with alice 7 0) empty_db)

-- A tree with the same two entries that lists them the other way round.
abbrev listed_otherwise : Db
listed_otherwise = record two_accounts { accounts = reverse two_accounts.accounts }

abbrev or_empty : Result Fault Text → Text
or_empty (ok t) = t
or_empty (err e) = []

two_accounts_root :
    compute_state_root two_accounts ≡ ok (or_empty (compute_state_root two_accounts))
unfolding compute_state_root is_utf8 put_entry text_eq text_lt
two_accounts_root = refl

compute_state_root_canonical_example :
    compute_state_root listed_otherwise ≡ ok (or_empty (compute_state_root two_accounts))
compute_state_root_canonical_example =
    compute_state_root_canonical two_accounts listed_otherwise two_accounts.accounts
      two_accounts.accounts (or_empty (compute_state_root two_accounts))
      (unfold put_entry text_eq text_lt in Permᴰ.cons refl (Permᴰ.cons refl Permᴰ.nil))
      (unfold put_entry text_eq text_lt in Permᴰ.swap refl refl)
      (unfold increasing above put_entry text_eq text_lt in refl)
      (unfold increasing above put_entry text_eq text_lt in refl) (λ a. refl) two_accounts_root

abbrev first_snapshot : StateSnapshot
first_snapshot = record { block_height = 1; state_root = codes "r1"; modified_accounts = [] }

abbrev second_snapshot : StateSnapshot
second_snapshot = record { block_height = 2; state_root = codes "r2"; modified_accounts = [] }

save_snapshot_twice_example :
    (db₁ : Db) × (db₂ : Db) × (save_snapshot first_snapshot empty_db ≡ (ok tt, db₁))
    × (save_snapshot second_snapshot db₁ ≡ (ok tt, db₂))
    × (entry_at db₁.metadata (snapshot_key 0) ≡ some (snapshot_lossless.encode first_snapshot))
    × (entry_at db₂.metadata (snapshot_key 0) ≡ some (snapshot_lossless.encode second_snapshot))
    × (entry_at db₂.metadata (codes "chain_tip") ≡ entry_at [] (codes "chain_tip"))
save_snapshot_twice_example =
    save_snapshot_twice toy_works toy_lossless snapshot_lossless first_snapshot second_snapshot
      empty_db (codes "chain_tip") (unfold entry_at in refl)
      (unfold text_eq snapshot_key padded in refl) (unfold text_eq in refl)
