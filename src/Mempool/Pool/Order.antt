-- ===== src/Mempool/Pool/Order.antt =====
-- The order of the fee index: `BTreeMap` keeps its keys by fee, and `keys().rev()` lists them
-- from the highest fee down.
use kyvera_core.Prelude.{
  ℕ, zero, suc, ◌≡◌, refl, ap, ◌∙◌, Bool, true, ◌&&◌, ◌||◌, List, [], ◌∷◌, ◌++◌, arith, leb, take,
  length, ◌⊎◌, inl, inr, Bool-cases,
}
use mathlib.Core.List.{reverse, reverse-cons}
use kyvera_core.Mempool.Pool.{FeeKey, key_eq, key_lt, insert_key, remove_key}
use kyvera_core.Mempool.Pool.Index.{has_key}

-- No key of the list has a fee below `fee`.
unfoldable pub none_below : ℕ → List FeeKey → Bool
none_below fee [] = true
none_below fee (k ∷ keys) = leb fee k.fee && none_below fee keys

-- No key of the list has a fee above `fee`.
unfoldable pub none_above : ℕ → List FeeKey → Bool
none_above fee [] = true
none_above fee (k ∷ keys) = leb k.fee fee && none_above fee keys

-- The fees do not fall along the list.
unfoldable pub rising : List FeeKey → Bool
rising [] = true
rising (k ∷ keys) = none_below k.fee keys && rising keys

-- The fees do not rise along the list.
unfoldable pub falling : List FeeKey → Bool
falling [] = true
falling (k ∷ keys) = none_above k.fee keys && falling keys

none_below-insert_key :
    (fee : ℕ) (k : FeeKey) (keys : List FeeKey)
    → leb fee k.fee ≡ true
    → none_below fee keys ≡ true
    → none_below fee (insert_key k keys) ≡ true
unfolding none_below insert_key
none_below-insert_key fee k [] e f = ground arith
none_below-insert_key fee k (j ∷ keys) e f = ground (arith, none_below-insert_key fee k keys)

none_below-remove_key :
    (fee : ℕ) (k : FeeKey) (keys : List FeeKey)
    → none_below fee keys ≡ true
    → none_below fee (remove_key k keys) ≡ true
unfolding none_below remove_key
none_below-remove_key fee k [] e = refl
none_below-remove_key fee k (j ∷ keys) e = ground (arith, none_below-remove_key fee k keys)

none_below-weaken :
    (low fee : ℕ) (keys : List FeeKey)
    → leb low fee ≡ true
    → none_below fee keys ≡ true
    → none_below low keys ≡ true
unfolding none_below
none_below-weaken low fee [] e f = refl
none_below-weaken low fee (k ∷ keys) e f = ground (arith, none_below-weaken low fee keys)

pub rising-insert_key :
    (k : FeeKey) (keys : List FeeKey) → rising keys ≡ true → rising (insert_key k keys) ≡ true
unfolding rising none_below insert_key key_eq key_lt
rising-insert_key k [] e = refl
rising-insert_key k (j ∷ keys) e = ground (
  arith,
  rising-insert_key k keys,
  none_below-insert_key j.fee k keys,
  none_below-weaken k.fee j.fee keys,
)

pub rising-remove_key :
    (k : FeeKey) (keys : List FeeKey) → rising keys ≡ true → rising (remove_key k keys) ≡ true
unfolding rising remove_key
rising-remove_key k [] e = refl
rising-remove_key k (j ∷ keys) e =
    ground (arith, rising-remove_key k keys, none_below-remove_key j.fee k keys)

has_key-append :
    (k : FeeKey) (s t : List FeeKey) → has_key k (s ++ t) ≡ (has_key k s || has_key k t)
unfolding has_key
has_key-append k [] t = refl
has_key-append k (j ∷ s) t = ground (arith, has_key-append k s t)

none_below-append :
    (fee : ℕ) (s t : List FeeKey) → none_below fee (s ++ t) ≡ (none_below fee s && none_below fee t)
unfolding none_below
none_below-append fee [] t = refl
none_below-append fee (j ∷ s) t = ground (arith, none_below-append fee s t)

none_above-end :
    (fee : ℕ) (s : List FeeKey) (k : FeeKey)
    → none_above fee s ≡ true
    → leb k.fee fee ≡ true
    → none_above fee (s ++ (k ∷ [])) ≡ true
unfolding none_above
none_above-end fee [] k e f = ground arith
none_above-end fee (j ∷ s) k e f = ground (arith, none_above-end fee s k)

falling-end :
    (s : List FeeKey) (k : FeeKey)
    → falling s ≡ true
    → none_below k.fee s ≡ true
    → falling (s ++ (k ∷ [])) ≡ true
unfolding falling none_above none_below
falling-end [] k e f = refl
falling-end (j ∷ s) k e f = ground (arith, falling-end s k, none_above-end j.fee s k)

pub has_key-reverse : (k : FeeKey) (keys : List FeeKey) → has_key k (reverse keys) ≡ has_key k keys
unfolding has_key
has_key-reverse k [] = refl
has_key-reverse k (j ∷ keys) =
    ap (has_key k) (reverse-cons j keys)
    ∙ ground (arith, has_key-append k (reverse keys) (j ∷ []), has_key-reverse k keys)

none_below-reverse :
    (fee : ℕ) (keys : List FeeKey) → none_below fee (reverse keys) ≡ none_below fee keys
unfolding none_below
none_below-reverse fee [] = refl
none_below-reverse fee (j ∷ keys) =
    ap (none_below fee) (reverse-cons j keys)
    ∙ ground (arith, none_below-append fee (reverse keys) (j ∷ []), none_below-reverse fee keys)

pub falling-reverse : (keys : List FeeKey) → rising keys ≡ true → falling (reverse keys) ≡ true
unfolding rising falling
falling-reverse [] e = refl
falling-reverse (j ∷ keys) e =
    ap falling (reverse-cons j keys)
    ∙ falling-end (reverse keys) j (falling-reverse keys (ground arith))
        (none_below-reverse j.fee keys ∙ ground arith)

pub has_key-take :
    (n : ℕ) (k : FeeKey) (keys : List FeeKey)
    → has_key k (take n keys) ≡ true
    → has_key k keys ≡ true
unfolding has_key
has_key-take zero k keys e = absurd (ground arith)
has_key-take (suc n) k [] e = e
has_key-take (suc n) k (j ∷ keys) e = ground (arith, has_key-take n k keys)

none_above-take :
    (n fee : ℕ) (keys : List FeeKey)
    → none_above fee keys ≡ true
    → none_above fee (take n keys) ≡ true
unfolding none_above
none_above-take zero fee keys e = refl
none_above-take (suc n) fee [] e = refl
none_above-take (suc n) fee (j ∷ keys) e = ground (arith, none_above-take n fee keys)

pub falling-take : (n : ℕ) (keys : List FeeKey) → falling keys ≡ true → falling (take n keys) ≡ true
unfolding falling
falling-take zero keys e = refl
falling-take (suc n) [] e = refl
falling-take (suc n) (j ∷ keys) e =
    ground (arith, falling-take n keys, none_above-take n j.fee keys)

none_above-has_key :
    (fee : ℕ) (k : FeeKey) (keys : List FeeKey)
    → none_above fee keys ≡ true
    → has_key k keys ≡ true
    → leb k.fee fee ≡ true
unfolding none_above has_key key_eq
none_above-has_key fee k [] e f = absurd (ground arith)
none_above-has_key fee k (j ∷ keys) e f = ground (arith, none_above-has_key fee k keys)

-- A key of a falling list is among the first `n`, or there are `n` before it, none with a lower
-- fee.
pub falling-split :
    (n : ℕ) (k : FeeKey) (keys : List FeeKey)
    → falling keys ≡ true
    → has_key k keys ≡ true
    → (has_key k (take n keys) ≡ true)
      ⊎ ((length (take n keys) ≡ n) × (none_below k.fee (take n keys) ≡ true))
unfolding falling has_key none_below key_eq
falling-split zero k keys e f = inr (refl, refl)
falling-split (suc n) k [] e f = absurd (ground arith)
falling-split (suc n) k (j ∷ keys) e f = elim (Bool-cases (key_eq k j)) [
  | inl same ↦ inl (ground arith)
  | inr other ↦
      let later : has_key k keys ≡ true = ground arith in
      elim (falling-split n k keys (ground arith) later) [
        | inl among ↦ inl (ground arith)
        | inr (full, low) ↦
            inr (ap suc full, ground (arith, none_above-has_key j.fee k keys (ground arith) later))
      ]
]
