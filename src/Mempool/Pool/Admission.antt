-- ===== src/Mempool/Pool/Admission.antt =====
-- What `add_transaction`, `remove` and `remove_batch` do to a pool whose structures agree.
use kyvera_core.Prelude.{
  ℕ, ◌+◌, ◌≤◌, ◌<◌, ◌≡◌, ◌≢◌, refl, ap, ◌∙◌, true, false, none, some, List, [], ◌∷◌, arith, Text,
  text_eq_refl, length, ok, Option-cases, inl, inr, Result-cases,
}
use native.Mathlib.Decide.{dec_lt}
use kyvera_core.Prelude.Maps
use kyvera_core.Prelude.Maps.{lookup, lookup-insert, length-remove, length-insert-le}
use kyvera_core.Types.Transaction.{Transaction}
use kyvera_core.Storage.Store.{Store}
use kyvera_core.Mempool.Pool.{
  Mempool, FeeKey, max_mempool_size, has_nonce, insert, without, remove, evict_for, make_room,
  add_transaction, remove_batch, len, contains,
}
use kyvera_core.Mempool.Pool.Index.{has_key, key_eq_iff, has_nonce-drop_nonce}
use kyvera_core.Mempool.Pool.Invariant.{Agrees, held, key_of, slot, held-without, without-Agrees}
use kyvera_core.Mempool.Pool.Order.{rising, rising-insert_key, rising-remove_key}
use kyvera_core.Mempool.Pool.Insertion.{insert-Agrees}

-- A pool whose structures agree, whose fee index is in order, and that is within its size.
pub record Sound (p : Mempool) : Type 0 where
  pub agrees : Agrees p
  pub ordered : rising p.fee_index ≡ true
  pub bounded : len p ≤ max_mempool_size

remove_found :
    (p : Mempool) (hash : Text) (tx : Transaction)
    → held p hash ≡ some tx
    → remove p hash ≡ (without p hash tx, some tx)
unfolding remove
remove_found p hash tx e = rw (e, remove)

remove_missing : (p : Mempool) (hash : Text) → held p hash ≡ none → remove p hash ≡ (p, none)
unfolding remove
remove_missing p hash e = rw (e, remove)

len-without :
    (p : Mempool) (hash : Text) (tx : Transaction)
    → held p hash ≡ some tx
    → len (without p hash tx) + 1 ≤ len p
unfolding len without
len-without p hash tx e = length-remove hash tx p.transactions e

-- Removing any hash from a sound pool leaves a sound pool.
pub remove-Sound : (p : Mempool) (hash : Text) → Sound p → Sound (remove p hash).0
remove-Sound p hash v = elim (Option-cases (held p hash)) [
  | inl e ↦ rw (remove_missing p hash e) v
  | inr (tx, e) ↦ rw (remove_found p hash tx e) (record {
    agrees = without-Agrees p v.agrees hash tx e;
    ordered = unfold without in rising-remove_key (key_of tx.hash tx) p.fee_index v.ordered;
    bounded = omega (arith, len-without p hash tx e, v.bounded);
  })
]

-- Removing a batch of hashes from a sound pool leaves a sound pool.
pub remove_batch-Sound :
    (hashes : List Text) (p : Mempool) → Sound p → Sound (remove_batch p hashes)
unfolding remove_batch
remove_batch-Sound [] p v = v
remove_batch-Sound (hash ∷ hashes) p v =
    remove_batch-Sound hashes (remove p hash).0 (remove-Sound p hash v)

-- A pool that is ready to take `tx`: sound, with room, its hash and its slot not in use.
record Ready (tx : Transaction) (p : Mempool) : Type 0 where
  pub sound : Sound p
  pub room : len p < max_mempool_size
  pub fresh : held p tx.hash ≡ none
  pub free : has_nonce (slot tx) p.pending_nonces ≡ false

insert-Sound : (tx : Transaction) (p : Mempool) → Ready tx p → Sound (insert p tx)
unfolding len insert
insert-Sound tx p r = record {
  agrees = insert-Agrees p r.sound.agrees tx r.fresh r.free;
  ordered = rising-insert_key (key_of tx.hash tx) p.fee_index r.sound.ordered;
  bounded = omega (arith, length-insert-le tx.hash tx p.transactions, r.room);
}

Ready-without :
    (tx ux : Transaction) (p : Mempool) (hash : Text)
    → Sound p
    → held p hash ≡ some ux
    → held p tx.hash ≡ none
    → has_nonce (slot tx) p.pending_nonces ≡ false
    → Ready tx (without p hash ux)
Ready-without tx ux p hash v here fresh free = record {
  sound = record {
    agrees = without-Agrees p v.agrees hash ux here;
    ordered = unfold without in rising-remove_key (key_of ux.hash ux) p.fee_index v.ordered;
    bounded = omega (arith, len-without p hash ux here, v.bounded);
  };
  room = omega (arith, len-without p hash ux here, v.bounded);
  fresh = ground (arith, held-without p v.agrees hash ux here tx.hash);
  free =
      unfold without in ground (arith, has_nonce-drop_nonce (slot tx) (slot ux) p.pending_nonces);
}

lookup-head :
    (h : Text) (tx : Transaction) (rest : List (Text × Transaction))
    → Maps.lookup h ((h, tx) ∷ rest) ≡ some tx
unfolding lookup
lookup-head h tx rest = rw (text_eq_refl h)

-- A pool with a transaction has an entry in its index.
index_nonempty :
    (p : Mempool) (transactions : List (Text × Transaction))
    → p.transactions ≡ transactions
    → Agrees p
    → 0 < length transactions
    → p.fee_index ≢ []
unfolding has_key
index_nonempty p [] e ag some_held empty = elim some_held [ ]
index_nonempty p ((h, tx) ∷ rest) e ag some_held empty =
    let indexed = ag.indexed h tx (ap (Maps.lookup h) e ∙ lookup-head h tx rest) in
    let nothing : has_key (key_of h tx) p.fee_index ≡ false = ap (has_key (key_of h tx)) empty in
    cc (indexed, nothing)

-- The lowest key of the index names a transaction of the pool.
lowest_held :
    (p : Mempool) (lowest : FeeKey) (rest : List FeeKey)
    → Agrees p
    → p.fee_index ≡ lowest ∷ rest
    → (ux : Transaction) × (held p lowest.hash ≡ some ux) × (ux.fee ≡ lowest.fee)
unfolding has_key
lowest_held p lowest rest ag e =
    let first : has_key lowest (lowest ∷ rest) ≡ true =
      ground (arith, (key_eq_iff lowest lowest).1 refl) in
    ag.backed lowest (ap (has_key lowest) e ∙ first)

-- A successful eviction removed the lowest entry, whose fee is below the incoming one.
evict_for_ok :
    (p room : Mempool) (fee : ℕ) (lowest : FeeKey) (rest : List FeeKey)
    → p.fee_index ≡ lowest ∷ rest
    → evict_for p fee ≡ ok room
    → (room ≡ (remove p lowest.hash).0) × (lowest.fee < fee)
unfolding evict_for
evict_for_ok p room fee lowest rest e made = ground arith

make_room-full :
    (tx : Transaction) (p room : Mempool) (index : List FeeKey)
    → p.fee_index ≡ index
    → Sound p
    → max_mempool_size ≤ len p
    → held p tx.hash ≡ none
    → has_nonce (slot tx) p.pending_nonces ≡ false
    → evict_for p tx.fee ≡ ok room
    → Ready tx room
unfolding len
make_room-full tx p room [] e v full fresh free made =
    absurd (index_nonempty p p.transactions refl v.agrees (omega arith) e)
make_room-full tx p room (lowest ∷ rest) e v full fresh free made =
    let (ux, here, fee) = lowest_held p lowest rest v.agrees e in
    let gone : room ≡ without p lowest.hash ux =
      (evict_for_ok p room tx.fee lowest rest e made).0
      ∙ ap (λ r. r.0) (remove_found p lowest.hash ux here) in
    rw gone (Ready-without tx ux p lowest.hash v here fresh free)

make_room-Ready :
    (tx : Transaction) (p room : Mempool)
    → Sound p
    → held p tx.hash ≡ none
    → has_nonce (slot tx) p.pending_nonces ≡ false
    → make_room p tx.fee ≡ ok room
    → Ready tx room
unfolding make_room
make_room-Ready tx p room v fresh free made = elim (dec_lt (len p) max_mempool_size) [
  | yes under ↦
      let same : room ≡ p = ground arith in
      rw same (record { sound = v; room = under; fresh = fresh; free = free })
  | no full ↦ make_room-full tx p room p.fee_index refl v (omega arith) fresh free (ground arith)
]

module _ {S : Type 0} ⦃store : Store S⦄ where
  -- What a successful admission has checked and done.
  admitted :
      (p p' : Mempool) (tx : Transaction) (db : S)
      → add_transaction p tx db ≡ ok p'
      → (held p tx.hash ≡ none)
        × (has_nonce (slot tx) p.pending_nonces ≡ false)
        × (room : Mempool) × (make_room p tx.fee ≡ ok room)
        × (p' ≡ insert room tx)
  unfolding add_transaction contains
  admitted p p' tx db e = elim (Result-cases (make_room p tx.fee)) [
    | inl (room, made) ↦ (ground arith, ground arith, room, made, ground arith)
    | inr (failed, e') ↦ absurd (ground arith)
  ]

  -- A sound pool stays sound when a transaction is admitted: the fee index and the nonce tracker
  -- still agree with the transactions, the index stays in order of the fees, and there are at
  -- most 50,000 transactions.
  pub add_transaction-Sound :
      (p p' : Mempool) (tx : Transaction) (db : S)
      → Sound p
      → add_transaction p tx db ≡ ok p'
      → Sound p'
  add_transaction-Sound p p' tx db v e =
      let (fresh, free, room, made, done) = admitted p p' tx db e in
      rw done (insert-Sound tx room (make_room-Ready tx p room v fresh free made))
