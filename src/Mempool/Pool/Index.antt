-- ===== src/Mempool/Pool/Index.antt =====
-- Membership in the fee index and in the nonce tracker after a change.
use kyvera_core.Prelude.{
  ℕ, ◌≡◌, ◌↔◌, refl, ap, Bool, true, false, not, ◌&&◌, ◌||◌, List, [], ◌∷◌, arith, Text,
  text_eq_iff,
}
use kyvera_core.Mempool.Pool.{
  FeeKey, key_eq, insert_key, remove_key, nonce_eq, has_nonce, drop_nonce, add_nonce,
}

unfoldable pub has_key : FeeKey → List FeeKey → Bool
has_key k [] = false
has_key k (j ∷ keys) = key_eq k j || has_key k keys

pub key_eq_iff : (a b : FeeKey) → (key_eq a b ≡ true) ↔ (a ≡ b)
unfolding key_eq
key_eq_iff a b = (
  λ e. ground (arith, text_eq_iff a.hash b.hash),
  λ e.
      ground
        (arith, ap (λ k. FeeKey.hash k) e, ap (λ k. FeeKey.fee k) e, text_eq_iff a.hash b.hash),
)

pub nonce_eq_iff : (a b : Text × ℕ) → (nonce_eq a b ≡ true) ↔ (a ≡ b)
unfolding nonce_eq
nonce_eq_iff (a, n) (b, m) = (
  λ e. ground (arith, text_eq_iff a b),
  λ e. ground (arith, text_eq_iff a b, ap (λ k. k.0) e, ap (λ k. k.1) e),
)

pub has_key-insert_key :
    (j k : FeeKey) (keys : List FeeKey)
    → has_key j (insert_key k keys) ≡ (key_eq j k || has_key j keys)
unfolding has_key insert_key
has_key-insert_key j k [] = refl
has_key-insert_key j k (i ∷ keys) =
    ground (arith, has_key-insert_key j k keys, key_eq_iff k i, key_eq_iff j i, key_eq_iff j k)

pub has_key-remove_key :
    (j k : FeeKey) (keys : List FeeKey)
    → has_key j (remove_key k keys) ≡ (not (key_eq j k) && has_key j keys)
unfolding has_key remove_key
has_key-remove_key j k [] = ground arith
has_key-remove_key j k (i ∷ keys) =
    ground (arith, has_key-remove_key j k keys, key_eq_iff k i, key_eq_iff j i, key_eq_iff j k)

pub has_nonce-drop_nonce :
    (j k : Text × ℕ) (s : List (Text × ℕ))
    → has_nonce j (drop_nonce k s) ≡ (not (nonce_eq j k) && has_nonce j s)
unfolding has_nonce drop_nonce
has_nonce-drop_nonce j k [] = ground arith
has_nonce-drop_nonce j k (i ∷ s) =
    ground (arith, has_nonce-drop_nonce j k s, nonce_eq_iff k i, nonce_eq_iff j i, nonce_eq_iff j k)

has_nonce-mem :
    (j k : Text × ℕ) (s : List (Text × ℕ))
    → nonce_eq j k ≡ true
    → has_nonce k s ≡ true
    → has_nonce j s ≡ true
has_nonce-mem j k s e h = ground (arith, nonce_eq_iff j k)

pub has_nonce-add_nonce :
    (j k : Text × ℕ) (s : List (Text × ℕ))
    → has_nonce j (add_nonce k s) ≡ (nonce_eq j k || has_nonce j s)
unfolding add_nonce has_nonce
has_nonce-add_nonce j k s = ground (arith, has_nonce-mem j k s)
