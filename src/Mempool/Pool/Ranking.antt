-- ===== src/Mempool/Pool/Ranking.antt =====
-- What `top_by_fee` lists: the transactions with the highest fees.
use kyvera_core.Prelude.{
  ℕ, suc, ◌≡◌, ap, sym, ◌∙◌, refl, true, List, [], ◌∷◌, map, some, arith, Text, take, length, ◌⊎◌,
  inl, inr,
}
use kyvera_core.Prelude.Maps
use mathlib.Core.Option.{Option-elim}
use mathlib.Core.List.{reverse, filter_map}
use kyvera_core.Types.Transaction.{Transaction}
use kyvera_core.Mempool.Pool.{Mempool, FeeKey, top_by_fee}
use kyvera_core.Mempool.Pool.Index.{has_key, key_eq_iff}
use kyvera_core.Mempool.Pool.Invariant.{Agrees, held, key_of}
use kyvera_core.Mempool.Pool.Order.{
  falling, none_below, has_key-reverse, has_key-take, falling-reverse, falling-take, falling-split,
}
use kyvera_core.Mempool.Pool.Admission.{Sound}

-- The fees and hashes of the listed transactions, in their order.
unfoldable pub ranking : List Transaction → List FeeKey
ranking txs = map (λ tx. key_of tx.hash tx) txs

length-ranking : (txs : List Transaction) → length (ranking txs) ≡ length txs
unfolding ranking
length-ranking [] = refl
length-ranking (tx ∷ txs) = ap suc (length-ranking txs)

module _ (p : Mempool) (ag : Agrees p) where
  -- Where every key has a transaction, the look-ups keep the list of keys.
  ranking-filter_map :
      (keys : List FeeKey)
      → ((k : FeeKey) → has_key k keys ≡ true → has_key k p.fee_index ≡ true)
      → ranking (filter_map (λ k. Maps.lookup k.hash p.transactions) keys) ≡ keys
  unfolding ranking filter_map Option-elim has_key
  ranking-filter_map [] known = refl
  ranking-filter_map (k ∷ keys) known =
      let rest = ranking-filter_map keys (λ j e. known j (ground arith)) in
      let here : has_key k (k ∷ keys) ≡ true = ground (arith, (key_eq_iff k k).1 refl) in
      let (tx, at, fee) = ag.backed k (known k here) in
      let same : tx.hash ≡ k.hash = ag.keyed k.hash tx at in rw at (cc (rest, same, fee))

  ranking-top_by_fee : (limit : ℕ) → ranking (top_by_fee p limit) ≡ take limit (reverse p.fee_index)
  unfolding top_by_fee
  ranking-top_by_fee limit =
      ranking-filter_map (take limit (reverse p.fee_index))
        (λ k e. sym (has_key-reverse k p.fee_index) ∙ has_key-take limit k (reverse p.fee_index) e)

-- The transactions that a sound pool lists for a block are in falling order of their fees, and
-- any transaction that the pool holds either is listed or gives way to as many transactions as
-- were asked for, none with a lower fee.
pub top_by_fee_best :
    (p : Mempool) (limit : ℕ) (h : Text) (tx : Transaction)
    → Sound p
    → held p h ≡ some tx
    → (falling (ranking (top_by_fee p limit)) ≡ true)
      × ((has_key (key_of h tx) (ranking (top_by_fee p limit)) ≡ true)
          ⊎ ((length (top_by_fee p limit) ≡ limit)
              × (none_below tx.fee (ranking (top_by_fee p limit)) ≡ true)))
top_by_fee_best p limit h tx v e =
    let same = ranking-top_by_fee p v.agrees limit in
    let sorted = falling-reverse p.fee_index v.ordered in
    let known = has_key-reverse (key_of h tx) p.fee_index ∙ v.agrees.indexed h tx e in
    let split = falling-split limit (key_of h tx) (reverse p.fee_index) sorted known in
    (
      ap falling same ∙ falling-take limit (reverse p.fee_index) sorted,
      elim split [
        | inl among ↦ inl (ap (has_key (key_of h tx)) same ∙ among)
        | inr (full, low) ↦ inr (
          sym (length-ranking (top_by_fee p limit)) ∙ ap length same ∙ full,
          ap (none_below tx.fee) same ∙ low,
        )
      ],
    )
