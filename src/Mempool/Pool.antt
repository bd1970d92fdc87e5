-- ===== src/Mempool/Pool.antt =====
-- src/mempool/pool.rs: the pool of pending transactions with its fee index and its nonce tracker.
-- The `HashMap` is an association list, the `BTreeMap` an ordered list of keys, the `HashSet` a
-- list without repetition.
pub mod Index
pub mod Invariant
pub mod Insertion
pub mod Order
pub mod Admission
pub mod Ranking
use kyvera_core.Prelude.{
  ℕ, ◌+◌, ◌-◌, zero, suc, Bool, true, false, not, ◌&&◌, ◌||◌, Option, none, some, List, [], ◌∷◌,
  Text, text_eq, text_lt, is_empty, ltb, leb, ◌==◌, if◌then◌else◌, length, take, min, Result, ok,
  err, ◌>>=◌, ◌>>◌, ensure, codes,
}
use kyvera_core.Prelude.Maps
use mathlib.Core.List.{reverse, filter_map}
use kyvera_core.Types.Account.{Account, u64_mod}
use kyvera_core.Types.Transaction.{
  Transaction, transfer, stake_lock, stake_unlock, contract_deploy, contract_call,
}
use kyvera_core.Storage.Exec.{Fault}
use kyvera_core.Storage.Store.{Store, or_new}

abbrev pub max_mempool_size : ℕ
max_mempool_size = 50_000

pub data MempoolError : Type 0 where
  already_exists : MempoolError
  duplicate_nonce : Text → ℕ → MempoolError
  insufficient_balance : Text → ℕ → ℕ → MempoolError
  invalid_nonce : ℕ → ℕ → MempoolError
  pool_full_fee_too_low : MempoolError
  malformed_transaction : Text → MempoolError
  store_failed : Fault → MempoolError

pub record FeeKey : Type 0 where
  pub fee : ℕ
  pub hash : Text

pub record Mempool : Type 0 where
  pub transactions : List (Text × Transaction)
  pub fee_index : List FeeKey
  pub pending_nonces : List (Text × ℕ)

-- The derived order on keys: fee, then hash.
unfoldable pub key_lt : FeeKey → FeeKey → Bool
unfolding text_lt
key_lt a b = ltb a.fee b.fee || (a.fee == b.fee && text_lt a.hash b.hash)

unfoldable pub key_eq : FeeKey → FeeKey → Bool
key_eq a b = a.fee == b.fee && text_eq a.hash b.hash

-- `BTreeMap::insert` and `BTreeMap::remove` on the ordered keys.
unfoldable pub insert_key : FeeKey → List FeeKey → List FeeKey
insert_key k [] = k ∷ []
insert_key k (j ∷ keys) =
    let rest = insert_key k keys in
    if key_eq k j then j ∷ keys else if key_lt k j then k ∷ (j ∷ keys) else j ∷ rest

unfoldable pub remove_key : FeeKey → List FeeKey → List FeeKey
remove_key k [] = []
remove_key k (j ∷ keys) = let rest = remove_key k keys in if key_eq k j then rest else j ∷ rest

unfoldable pub nonce_eq : Text × ℕ → Text × ℕ → Bool
nonce_eq (a, n) (b, m) = text_eq a b && n == m

-- `HashSet::contains`, `insert` and `remove`.
unfoldable pub has_nonce : Text × ℕ → List (Text × ℕ) → Bool
has_nonce k [] = false
has_nonce k (j ∷ s) = nonce_eq k j || has_nonce k s

unfoldable pub drop_nonce : Text × ℕ → List (Text × ℕ) → List (Text × ℕ)
drop_nonce k [] = []
drop_nonce k (j ∷ s) = let rest = drop_nonce k s in if nonce_eq k j then rest else j ∷ rest

unfoldable pub add_nonce : Text × ℕ → List (Text × ℕ) → List (Text × ℕ)
add_nonce k s = if has_nonce k s then s else k ∷ s

-- `pending_nonces.iter().any(|(addr, _)| addr == sender)`
unfoldable pub has_pending : Text → List (Text × ℕ) → Bool
has_pending a [] = false
has_pending a ((b, n) ∷ s) = text_eq b a || has_pending a s

unfoldable pub new : Mempool
new = record { transactions = []; fee_index = []; pending_nonces = [] }

unfoldable pub len : Mempool → ℕ
len p = length p.transactions

unfoldable pub contains : Mempool → Text → Bool
contains p hash = elim (Maps.lookup hash p.transactions) [ none ↦ false | some tx ↦ true ]

unfoldable pub get : Mempool → Text → Option Transaction
get p hash = Maps.lookup hash p.transactions

unfoldable pub validate_structure : Transaction → Result MempoolError (Unit {0})
validate_structure tx = do
  ensure (not (is_empty tx.hash)) (malformed_transaction (codes "empty hash"))
  ensure (not (is_empty tx.signature)) (malformed_transaction (codes "empty signature"))
  ensure (not (is_empty tx.sender || is_empty tx.receiver))
      (malformed_transaction (codes "empty sender or receiver"))

-- `a.saturating_add(b)`
unfoldable pub saturating_add : ℕ → ℕ → ℕ
saturating_add a b = min (a + b) (u64_mod - 1)

unfoldable pub required_balance : Transaction → ℕ
unfolding saturating_add
required_balance tx = elim tx.transaction_type [
  | transfer ↦ saturating_add tx.amount tx.fee
  | stake_lock ↦ saturating_add tx.amount tx.fee
  | stake_unlock ↦ tx.fee
  | contract_deploy ↦ tx.fee
  | contract_call ↦ tx.fee
]

unfoldable pub insert : Mempool → Transaction → Mempool
insert p tx = record {
  transactions = Maps.insert tx.hash tx p.transactions;
  fee_index = insert_key (record { fee = tx.fee; hash = tx.hash }) p.fee_index;
  pending_nonces = add_nonce (tx.sender, tx.nonce) p.pending_nonces;
}

-- The pool without `tx`, which was found under `hash`.
unfoldable pub without : Mempool → Text → Transaction → Mempool
without p hash tx = record {
  transactions = Maps.remove hash p.transactions;
  fee_index = remove_key (record { fee = tx.fee; hash = tx.hash }) p.fee_index;
  pending_nonces = drop_nonce (tx.sender, tx.nonce) p.pending_nonces;
}

unfoldable pub remove : Mempool → Text → Mempool × Option Transaction
unfolding without
remove p hash = elim (Maps.lookup hash p.transactions) [
  | none ↦ (p, none)
  | some tx ↦ (without p hash tx, some tx)
]

unfoldable pub evict_for : Mempool → ℕ → Result MempoolError Mempool
evict_for p incoming_fee = elim p.fee_index [
  | [] ↦ ok p
  | lowest ∷ _ ↦
      if leb incoming_fee lowest.fee then err pool_full_fee_too_low else ok (remove p lowest.hash).0
]

-- `if self.transactions.len() >= MAX_MEMPOOL_SIZE { self.evict_for(tx.fee)?; }`
unfoldable pub make_room : Mempool → ℕ → Result MempoolError Mempool
make_room p incoming_fee = if leb max_mempool_size (len p) then evict_for p incoming_fee else ok p

module _ {S : Type 0} ⦃store : Store S⦄ where
  open store use {get_account}

  -- `get_account(db, &tx.sender).map_err(MempoolError::MalformedTransaction)?`
  unfoldable pub found_account : S → Text → Result MempoolError (Option Account)
  found_account db sender = elim (get_account sender db).0 [
    | ok found ↦ ok found
    | err e ↦ err (store_failed e)
  ]

  -- The pool after the call, or the error; an error leaves the pool as it was.
  unfoldable pub add_transaction : Mempool → Transaction → S → Result MempoolError Mempool
  unfolding validate_structure required_balance
  add_transaction p tx db = do
    validate_structure tx
    ensure (not (contains p tx.hash)) already_exists
    ensure (not (has_nonce (tx.sender, tx.nonce) p.pending_nonces))
        (duplicate_nonce tx.sender tx.nonce)
    found ← found_account db tx.sender
    let account = or_new tx.sender found
    let required = required_balance tx
    ensure (leb required account.balance) (insufficient_balance tx.sender required account.balance)
    let has_other_pending = has_pending tx.sender p.pending_nonces
    ensure (has_other_pending || tx.nonce == account.nonce) (invalid_nonce account.nonce tx.nonce)
    room ← make_room p tx.fee
    ok (insert room tx)

-- `keys().rev().take(limit).filter_map(|key| transactions.get(&key.hash).cloned())`
unfoldable pub top_by_fee : Mempool → ℕ → List Transaction
top_by_fee p limit =
    filter_map (λ k. Maps.lookup k.hash p.transactions) (take limit (reverse p.fee_index))

unfoldable pub remove_batch : Mempool → List Text → Mempool
unfolding remove
remove_batch p [] = p
remove_batch p (hash ∷ hashes) = remove_batch (remove p hash).0 hashes
