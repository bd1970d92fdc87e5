-- ===== src/Chain/Hash.antt =====
-- src/chain/hash.rs: the hashes of headers and transactions and the difficulty test. The crates
-- `sha3` and `hex` are the parameter `Hasher`; nothing is assumed of them.
pub mod Difficulty
use kyvera_core.Prelude.{
  ℕ, zero, suc, ◌-◌, ◌/◌, ◌%◌, ◌^◌, Bool, true, false, ◌&&◌, List, [], ◌∷◌, ◌++◌, Text, decimal,
  codes, ltb, ◌==◌, if◌then◌else◌, length, take, ◌+◌,
}
use kyvera_core.Prelude.Int.{ℤ, pos, negsuc, pos_part, neg_part}

-- `Sha3_256` over the concatenation of the updates, and `hex::encode`.
pub record Hasher : Type 0 where
  pub digest : Text → Text
  pub hex_encode : Text → Text

-- `to_string` of an `i64`, of a `bool as u8`, and `to_le_bytes` of a 64-bit word.
unfoldable pub decimal_ℤ : ℤ → Text
decimal_ℤ (pos n) = decimal n
decimal_ℤ (negsuc n) = b'-' ∷ decimal (suc n)

unfoldable pub decimal_bool : Bool → Text
decimal_bool true = codes "1"
decimal_bool false = codes "0"

le_bytes_from : ℕ → ℕ → Text
le_bytes_from zero n = []
le_bytes_from (suc k) n = (n % 256) ∷ le_bytes_from k (n / 256)

unfoldable pub to_le_bytes : ℕ → Text
unfolding le_bytes_from
to_le_bytes n = le_bytes_from 8 n

unfoldable pub to_le_bytes_ℤ : ℤ → Text
unfolding to_le_bytes
to_le_bytes_ℤ (pos n) = to_le_bytes n
to_le_bytes_ℤ (negsuc n) = to_le_bytes (2 ^ 64 - suc n)

module _ ⦃h : Hasher⦄ where
  unfoldable pub sha3_256_hex : Text → Text
  sha3_256_hex input = h.hex_encode (h.digest input)

  unfoldable pub double_sha3_256 : Text → Text
  unfolding sha3_256_hex
  double_sha3_256 input = sha3_256_hex (sha3_256_hex input)

  unfoldable pub hash_block_header : ℕ → ℤ → Text → Text → ℕ → ℕ → Bool → ℕ → Text → Text
  unfolding sha3_256_hex
  hash_block_header index timestamp previous_hash merkle_root nonce difficulty is_epoch_block
        epoch_index state_root =
      sha3_256_hex (
        decimal index
        ++ (decimal_ℤ timestamp
            ++ (previous_hash
                ++ (merkle_root
                    ++ (decimal nonce
                        ++ (decimal difficulty
                            ++ (decimal_bool is_epoch_block
                                ++ (decimal epoch_index ++ state_root))))))))

  unfoldable pub hash_transaction : Text → Text → ℕ → ℕ → ℕ → ℤ → Text → Text → Text → Text
  hash_transaction sender receiver amount fee nonce timestamp transaction_type payload signature =
      h.hex_encode (
        h.digest (
          sender
          ++ (receiver
              ++ (to_le_bytes amount
                  ++ (to_le_bytes fee
                      ++ (to_le_bytes nonce
                          ++ (to_le_bytes_ℤ timestamp
                              ++ (transaction_type ++ (payload ++ signature)))))))))

-- `chars().all(|c| c == '0')`.
unfoldable pub all_zeros : Text → Bool
all_zeros [] = true
all_zeros (c ∷ s) = c == b'0' && all_zeros s

unfoldable pub meets_difficulty : Text → ℕ → Bool
unfolding all_zeros
meets_difficulty hash difficulty =
    if ltb (length hash) difficulty then false else all_zeros (take difficulty hash)

unfoldable pub count_leading_zeros : Text → ℕ
count_leading_zeros [] = 0
count_leading_zeros (c ∷ s) = let rest = count_leading_zeros s in if c == b'0' then rest + 1 else 0
