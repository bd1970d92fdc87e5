-- ===== src/Mempool/Pool/Insertion.antt =====
-- The agreement of the pool's three structures under insertion.
use kyvera_core.Prelude.{
  ℕ, ◌≡◌, ap, sym, ◌∙◌, true, false, none, some, arith, Text, text_eq, text_eq_iff, text_eq_refl,
  text_eq_sound, if◌then◌else◌, Bool-cases, inl, inr,
}
use kyvera_core.Prelude.Maps.{lookup, lookup-insert}
use kyvera_core.Types.Transaction.{Transaction}
use kyvera_core.Mempool.Pool.{Mempool, FeeKey, key_eq, nonce_eq, has_nonce, insert, new}
use kyvera_core.Mempool.Pool.Index.{has_key, nonce_eq_iff, has_key-insert_key, has_nonce-add_nonce}
use kyvera_core.Mempool.Pool.Invariant.{Agrees, held, key_of, slot}

module _ (p : Mempool) (ag : Agrees p) (tx : Transaction) (fresh : held p tx.hash ≡ none)
    (free : has_nonce (slot tx) p.pending_nonces ≡ false) where
  held-insert :
      (h : Text) → held (insert p tx) h ≡ (if text_eq tx.hash h then some tx else held p h)
  unfolding insert
  held-insert h = lookup-insert tx.hash h tx p.transactions

  keyed_after : (h : Text) (ux : Transaction) → held (insert p tx) h ≡ some ux → ux.hash ≡ h
  keyed_after h ux e = elim (Bool-cases (text_eq tx.hash h)) [
    | inl same ↦
        let e' : tx ≡ ux = ground (arith, held-insert h) in
        sym (ap (λ t. Transaction.hash t) e') ∙ text_eq_sound tx.hash h same
    | inr other ↦ ag.keyed h ux (ground (arith, held-insert h))
  ]

  indexed_after :
      (h : Text) (ux : Transaction)
      → held (insert p tx) h ≡ some ux
      → has_key (key_of h ux) (insert p tx).fee_index ≡ true
  unfolding insert key_eq
  indexed_after h ux e = ground (
    arith,
    held-insert h,
    has_key-insert_key (key_of h ux) (key_of tx.hash tx) p.fee_index,
    text_eq_iff tx.hash h,
    text_eq_iff h tx.hash,
    ag.indexed h ux,
  )

  key_old :
      (k : FeeKey)
      → has_key k (insert p tx).fee_index ≡ true
      → key_eq k (key_of tx.hash tx) ≡ false
      → has_key k p.fee_index ≡ true
  unfolding insert
  key_old k e other = ground (arith, has_key-insert_key k (key_of tx.hash tx) p.fee_index)

  nonce_old :
      (k : Text × ℕ)
      → has_nonce k (insert p tx).pending_nonces ≡ true
      → nonce_eq k (slot tx) ≡ false
      → has_nonce k p.pending_nonces ≡ true
  unfolding insert
  nonce_old k e other = ground (arith, has_nonce-add_nonce k (slot tx) p.pending_nonces)

  backed_after :
      (k : FeeKey)
      → has_key k (insert p tx).fee_index ≡ true
      → (ux : Transaction) × (held (insert p tx) k.hash ≡ some ux) × (ux.fee ≡ k.fee)
  unfolding key_eq
  backed_after k e = elim (Bool-cases (key_eq k (key_of tx.hash tx))) [
    | inl same ↦ (
      tx,
      ground (arith, held-insert k.hash, text_eq_iff k.hash tx.hash, text_eq_iff tx.hash k.hash),
      ground arith,
    )
    | inr other ↦
        let before : has_key k p.fee_index ≡ true = key_old k e other in
        let (ux, at, fee) = ag.backed k before in
        (ux, ground (arith, held-insert k.hash, text_eq_iff tx.hash k.hash), fee)
  ]

  tracked_after :
      (h : Text) (ux : Transaction)
      → held (insert p tx) h ≡ some ux
      → has_nonce (slot ux) (insert p tx).pending_nonces ≡ true
  unfolding insert
  tracked_after h ux e = ground (
    arith,
    held-insert h,
    has_nonce-add_nonce (slot ux) (slot tx) p.pending_nonces,
    nonce_eq_iff (slot ux) (slot tx),
    ag.tracked h ux,
  )

  waited_after :
      (k : Text × ℕ)
      → has_nonce k (insert p tx).pending_nonces ≡ true
      → (h : Text) × (ux : Transaction) × (held (insert p tx) h ≡ some ux) × (slot ux ≡ k)
  waited_after k e = elim (Bool-cases (nonce_eq k (slot tx))) [
    | inl same ↦ (
      tx.hash,
      tx,
      ground (arith, held-insert tx.hash, text_eq_refl tx.hash),
      sym ((nonce_eq_iff k (slot tx)).0 same),
    )
    | inr other ↦
        let before : has_nonce k p.pending_nonces ≡ true = nonce_old k e other in
        let (h, ux, at, same) = ag.waited k before in
        (h, ux, ground (arith, held-insert h, text_eq_iff tx.hash h), same)
  ]

  alone_after :
      (h j : Text) (ux vx : Transaction)
      → held (insert p tx) h ≡ some ux
      → held (insert p tx) j ≡ some vx
      → slot ux ≡ slot vx
      → h ≡ j
  alone_after h j ux vx e f s = ground (
    arith,
    held-insert h,
    held-insert j,
    text_eq_iff tx.hash h,
    text_eq_iff tx.hash j,
    ag.alone h j ux vx,
    ag.tracked h ux,
    ag.tracked j vx,
  )

  pub insert-Agrees : Agrees (insert p tx)
  insert-Agrees = record {
    keyed = keyed_after;
    indexed = indexed_after;
    backed = backed_after;
    tracked = tracked_after;
    waited = waited_after;
    alone = alone_after;
  }

pub new-Agrees : Agrees new
unfolding new has_key has_nonce lookup
new-Agrees = record {
  keyed = λ h tx e. cc;
  indexed = λ h tx e. cc;
  backed = λ k e. absurd (cc);
  tracked = λ h tx e. cc;
  waited = λ k e. absurd (cc);
  alone = λ h j tx ux e f s. cc;
}
