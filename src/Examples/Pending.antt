-- ===== src/Examples/Pending.antt =====
-- The pool of pending transactions over the small database.
use kyvera_core.Prelude.{◌≡◌, refl, true, arith, ok, is_empty, text_eq, codes, length, ◌⊎◌}
use kyvera_core.Types.Transaction.{Transaction}
use kyvera_core.Prelude.Maps
use kyvera_core.Prelude.Maps.{lookup}
use kyvera_core.Mempool.Pool
use kyvera_core.Mempool.Pool.{
  Mempool, add_transaction, validate_structure, required_balance, insert, contains, has_nonce,
  has_pending, make_room, found_account, remove_batch, remove, without, max_mempool_size,
  top_by_fee,
}
use kyvera_core.Mempool.Pool.Admission.{Sound, add_transaction-Sound}
use kyvera_core.Mempool.Pool.Order.{rising, falling, none_below}
use kyvera_core.Mempool.Pool.Index.{has_key}
use kyvera_core.Mempool.Pool.Invariant.{key_of}
use kyvera_core.Mempool.Pool.Ranking.{ranking, top_by_fee_best}
use kyvera_core.Mempool.Pool.Insertion.{new-Agrees}
use kyvera_core.Storage.AccountStore.Database.{db_store, get_account}
use kyvera_core.Examples.ToyDb.{toy_sled, toy_codec}
use kyvera_core.Storage.Db.{entry_at, put_entry, drop_entry}
use kyvera_core.Prelude.{text_lt}
use kyvera_core.Examples.Ledger.{pay, one_account}

abbrev empty_pool : Mempool
empty_pool = Pool.new

empty_pool-Sound : Sound empty_pool
empty_pool-Sound = record {
  agrees = new-Agrees;
  ordered = unfold Pool.new rising in refl;
  bounded = unfold Pool.new Pool.len in omega arith;
}

abbrev pool_of_one : Mempool
pool_of_one = insert empty_pool (pay 100)

pay_admitted : add_transaction empty_pool (pay 100) one_account ≡ ok pool_of_one
unfolding add_transaction is_empty contains lookup Pool.new has_nonce found_account get_account
    entry_at put_entry drop_entry text_lt text_eq has_pending make_room Pool.len
pay_admitted = refl

add_transaction-Sound_example : Sound pool_of_one
add_transaction-Sound_example =
    add_transaction-Sound empty_pool pool_of_one (pay 100) one_account empty_pool-Sound pay_admitted

-- A second transaction of Alice's, which pays more.
abbrev urgent : Transaction
urgent = record (pay 10) { hash = codes "g"; fee = 30; nonce = 1 }

abbrev pool_of_two : Mempool
pool_of_two = insert pool_of_one urgent

urgent_admitted : add_transaction pool_of_one urgent one_account ≡ ok pool_of_two
unfolding add_transaction is_empty contains lookup Pool.new insert has_nonce found_account
    get_account entry_at put_entry drop_entry text_lt text_eq has_pending make_room Pool.len
    Maps.insert Pool.add_nonce Pool.nonce_eq
urgent_admitted = refl

pool_of_two-Sound : Sound pool_of_two
pool_of_two-Sound =
    add_transaction-Sound pool_of_one pool_of_two urgent one_account
      (add_transaction-Sound empty_pool pool_of_one (pay 100) one_account empty_pool-Sound
        pay_admitted)
      urgent_admitted

-- With one place in the block, the cheaper transaction gives way to the other.
top_by_fee_best_example :
    (falling (ranking (top_by_fee pool_of_two 1)) ≡ true)
    × ((has_key (key_of (codes "h") (pay 100)) (ranking (top_by_fee pool_of_two 1)) ≡ true)
        ⊎ ((length (top_by_fee pool_of_two 1) ≡ 1)
            × (none_below 20 (ranking (top_by_fee pool_of_two 1)) ≡ true)))
top_by_fee_best_example =
    top_by_fee_best pool_of_two 1 (codes "h") (pay 100) pool_of_two-Sound
      (unfold insert Maps.insert Pool.new lookup text_eq in refl)
