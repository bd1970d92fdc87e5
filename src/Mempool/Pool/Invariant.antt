-- ===== src/Mempool/Pool/Invariant.antt =====
-- The agreement of the pool's three structures, and the removal of a transaction.
use kyvera_core.Prelude.{
  ℕ, ◌≡◌, true, false, Option, none, some, arith, Text, text_eq, text_eq_iff, if◌then◌else◌,
}
use kyvera_core.Prelude.Maps
use kyvera_core.Prelude.Maps.{lookup-remove, lookup-insert, length-remove, length-insert-le}
use kyvera_core.Types.Transaction.{Transaction}
use kyvera_core.Mempool.Pool.{Mempool, FeeKey, key_eq, nonce_eq, has_nonce, without}
use kyvera_core.Mempool.Pool.Index.{has_key, nonce_eq_iff, has_key-remove_key, has_nonce-drop_nonce}

-- The transaction that the pool holds under a hash.
abbrev pub held : Mempool → Text → Option Transaction
held p hash = Maps.lookup hash p.transactions

abbrev pub key_of : Text → Transaction → FeeKey
key_of hash tx = record { fee = tx.fee; hash = hash }

abbrev pub slot : Transaction → Text × ℕ
slot tx = (tx.sender, tx.nonce)

-- The fee index holds exactly the keys of the transactions, the nonce tracker exactly their
-- senders and nonces, and no two of them share both.
pub record Agrees (p : Mempool) : Type 0 where
  pub keyed : (h : Text) (tx : Transaction) → held p h ≡ some tx → tx.hash ≡ h
  pub indexed :
      (h : Text) (tx : Transaction) → held p h ≡ some tx → has_key (key_of h tx) p.fee_index ≡ true
  pub backed :
      (k : FeeKey)
      → has_key k p.fee_index ≡ true
      → (tx : Transaction) × (held p k.hash ≡ some tx) × (tx.fee ≡ k.fee)
  pub tracked :
      (h : Text) (tx : Transaction)
      → held p h ≡ some tx
      → has_nonce (slot tx) p.pending_nonces ≡ true
  pub waited :
      (k : Text × ℕ)
      → has_nonce k p.pending_nonces ≡ true
      → (h : Text) × (tx : Transaction) × (held p h ≡ some tx) × (slot tx ≡ k)
  pub alone :
      (h j : Text) (tx ux : Transaction)
      → held p h ≡ some tx
      → held p j ≡ some ux
      → slot tx ≡ slot ux
      → h ≡ j

module _ (p : Mempool) (ag : Agrees p) (hash : Text) (tx : Transaction)
    (here : held p hash ≡ some tx) where
  -- What the pool holds after the removal.
  pub held-without :
      (h : Text) → held (without p hash tx) h ≡ (if text_eq hash h then none else held p h)
  unfolding without
  held-without h = lookup-remove hash h p.transactions

  held_before :
      (h : Text) (ux : Transaction)
      → held (without p hash tx) h ≡ some ux
      → (held p h ≡ some ux) × (text_eq hash h ≡ false)
  held_before h ux e = ground (arith, held-without h)

  indexed_left :
      (h : Text) (ux : Transaction)
      → held (without p hash tx) h ≡ some ux
      → has_key (key_of h ux) (without p hash tx).fee_index ≡ true
  unfolding without key_eq
  indexed_left h ux e =
      let (b, apart) = held_before h ux e in
      ground (
        arith,
        has_key-remove_key (key_of h ux) (record { fee = tx.fee; hash = tx.hash }) p.fee_index,
        ag.indexed h ux b,
        ag.keyed hash tx here,
        text_eq_iff h tx.hash,
        text_eq_iff hash h,
      )

  -- What is in the index after the removal was there before, and is another key.
  key_before :
      (k : FeeKey)
      → has_key k (without p hash tx).fee_index ≡ true
      → (has_key k p.fee_index ≡ true)
        × (key_eq k (record { fee = tx.fee; hash = tx.hash }) ≡ false)
  unfolding without
  key_before k e =
      ground (arith, has_key-remove_key k (record { fee = tx.fee; hash = tx.hash }) p.fee_index)

  backed_left :
      (k : FeeKey)
      → has_key k (without p hash tx).fee_index ≡ true
      → (ux : Transaction) × (held (without p hash tx) k.hash ≡ some ux) × (ux.fee ≡ k.fee)
  unfolding key_eq
  backed_left k e =
      let (before, apart) = key_before k e in
      let (ux, at, fee) = ag.backed k before in
      let other : text_eq hash k.hash ≡ false =
        ground
          (arith, text_eq_iff hash k.hash, text_eq_iff k.hash tx.hash, ag.keyed hash tx here) in
      (ux, ground (arith, held-without k.hash), fee)

  tracked_left :
      (h : Text) (ux : Transaction)
      → held (without p hash tx) h ≡ some ux
      → has_nonce (slot ux) (without p hash tx).pending_nonces ≡ true
  unfolding without
  tracked_left h ux e =
      let (b, apart) = held_before h ux e in
      ground (
        arith,
        has_nonce-drop_nonce (slot ux) (slot tx) p.pending_nonces,
        ag.tracked h ux b,
        nonce_eq_iff (slot ux) (slot tx),
        ag.alone h hash ux tx b here,
        text_eq_iff hash h,
      )

  nonce_before :
      (k : Text × ℕ)
      → has_nonce k (without p hash tx).pending_nonces ≡ true
      → (has_nonce k p.pending_nonces ≡ true) × (nonce_eq k (slot tx) ≡ false)
  unfolding without
  nonce_before k e = ground (arith, has_nonce-drop_nonce k (slot tx) p.pending_nonces)

  waited_left :
      (k : Text × ℕ)
      → has_nonce k (without p hash tx).pending_nonces ≡ true
      → (h : Text) × (ux : Transaction) × (held (without p hash tx) h ≡ some ux) × (slot ux ≡ k)
  waited_left k e =
      let (before, apart) = nonce_before k e in
      let (h, ux, at, same) = ag.waited k before in
      let other : text_eq hash h ≡ false =
        ground (arith, text_eq_iff hash h, nonce_eq_iff k (slot tx)) in
      (h, ux, ground (arith, held-without h), same)

  pub without-Agrees : Agrees (without p hash tx)
  without-Agrees = record {
    keyed = λ h ux e. ag.keyed h ux (held_before h ux e).0;
    indexed = indexed_left;
    backed = backed_left;
    tracked = tracked_left;
    waited = waited_left;
    alone = λ h j ux vx e f s. ag.alone h j ux vx (held_before h ux e).0 (held_before j vx f).0 s;
  }
