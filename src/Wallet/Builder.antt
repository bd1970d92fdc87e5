-- ===== src/Wallet/Builder.antt =====
-- src/wallet/transaction_builder.rs: signed transactions. The clock is read twice, once for the
-- transaction and once for the nonce; both times and the coins of the signature are arguments.
pub mod Signed
use kyvera_core.Prelude.{
  ℕ, Bool, true, false, not, ◌&&◌, ◌||◌, Option, none, some, List, [], ◌∷◌, ◌++◌, Text, Result, ok,
  err, ◌>>=◌, ◌>>◌, ensure, codes, decimal, starts_with, drop, length, ◌==◌, leb, if◌then◌else◌,
}
use kyvera_core.Prelude.Int.{ℤ}
use kyvera_core.Types.Transaction.{
  Transaction, TransactionType, transfer, stake_lock, stake_unlock, new,
}
use kyvera_core.Chain.Hash.{Hasher}
use kyvera_core.Storage.Db.{Codec}
use kyvera_core.Crypto.Schemes.{Schemes}
use kyvera_core.Crypto.Dilithium.{CryptoError, KyveraSignature, sign, to_hex}
use kyvera_core.Crypto.Identity.{TransactionNonce, new_nonce, bind_message_to_nonce, sha3_256}
use kyvera_core.Wallet.Keys.{KyveraWallet}

pub data BuilderError : Type 0 where
  insufficient_balance : ℕ → ℕ → BuilderError
  signing_failed zero_amount : BuilderError
  invalid_address : Text → BuilderError

-- `char::is_ascii_hexdigit`.
unfoldable pub is_ascii_hexdigit : ℕ → Bool
is_ascii_hexdigit c =
    (leb b'0' c && leb c b'9') || ((leb b'a' c && leb c b'f') || (leb b'A' c && leb c b'F'))

unfoldable pub all_hexdigits : Text → Bool
unfolding is_ascii_hexdigit
all_hexdigits [] = true
all_hexdigits (c ∷ s) = is_ascii_hexdigit c && all_hexdigits s

unfoldable pub validate_address : Text → Bool
unfolding all_hexdigits
validate_address address =
    if not (starts_with address (codes "kyv1"))
    then false
    else if not (length (drop 4 address) == 64)
    then false
    else all_hexdigits (drop 4 address)

-- The placeholder that the stake functions spell out.
abbrev pub staking_contract : Text
staking_contract = codes "kyv1000000000000000000000000000000000000000000000000000000000000stake"

-- `map_err(|e| BuilderError::SigningFailed(e))?`
unfoldable pub or_signing_failed : {A : Type 0} → Result CryptoError A → Result BuilderError A
or_signing_failed (ok a) = ok a
or_signing_failed (err e) = err signing_failed

-- `map_err(|e| BuilderError::SigningFailed(e.to_string()))?`
unfoldable pub or_not_serialized : {A : Type 0} → Option A → Result BuilderError A
or_not_serialized none = err signing_failed
or_not_serialized (some a) = ok a

-- What a build draws from its surroundings: the two times and the coins.
pub record Draw : Type 0 where
  pub now : ℤ
  pub nonce_now : ℤ
  pub coins : Text

module _ ⦃schemes : Schemes⦄ ⦃h : Hasher⦄ where
  unfoldable pub compute_transaction_hash : Transaction → Text
  unfolding sha3_256
  compute_transaction_hash tx = sha3_256 (
      tx.sender
      ++ (tx.receiver
          ++ (decimal tx.amount ++ (decimal tx.fee ++ (decimal tx.nonce ++ tx.signature)))))

  -- The transaction with its signature, and with the hash after that.
  unfoldable pub with_signature : Transaction → KyveraSignature → Transaction
  unfolding compute_transaction_hash to_hex
  with_signature tx signature =
      let signed = record tx { signature = to_hex signature } in
      record signed { hash = compute_transaction_hash signed }

  module _ ⦃codec : Codec Transaction⦄ where
    -- The end that the three builders share: payload, nonce, signature, hash.
    unfoldable pub sign_and_hash :
        Draw → KyveraWallet → Transaction → ℕ → Text → Result BuilderError Transaction
    unfolding or_not_serialized or_signing_failed new_nonce with_signature
    sign_and_hash draw wallet tx account_nonce chain_state_hash = do
      tx_payload ← or_not_serialized (codec.to_vec tx)
      signature ← or_signing_failed (
          sign draw.coins wallet.signing_keypair (
            bind_message_to_nonce tx_payload
              (new_nonce draw.nonce_now account_nonce chain_state_hash)))
      ok (with_signature tx signature)

    unfoldable pub build_transfer :
        Draw → KyveraWallet → Text → ℕ → ℕ → ℕ → Text → Result BuilderError Transaction
    unfolding validate_address new sign_and_hash
    build_transfer draw wallet recipient amount fee account_nonce chain_state_hash = do
      ensure (not (amount == 0)) zero_amount
      ensure (validate_address recipient) (invalid_address recipient)
      sign_and_hash draw wallet
          (new draw.now wallet.address recipient amount fee account_nonce transfer []) account_nonce
          chain_state_hash

    unfoldable pub build_stake_lock :
        Draw → KyveraWallet → ℕ → ℕ → ℕ → Text → Result BuilderError Transaction
    unfolding new sign_and_hash
    build_stake_lock draw wallet amount fee account_nonce chain_state_hash = do
      ensure (not (amount == 0)) zero_amount
      sign_and_hash draw wallet
          (new draw.now wallet.address staking_contract amount fee account_nonce stake_lock [])
          account_nonce chain_state_hash

    unfoldable pub build_stake_unlock :
        Draw → KyveraWallet → ℕ → ℕ → ℕ → Text → Result BuilderError Transaction
    unfolding new sign_and_hash
    build_stake_unlock draw wallet amount fee account_nonce chain_state_hash = do
      ensure (not (amount == 0)) zero_amount
      sign_and_hash draw wallet
          (new draw.now wallet.address staking_contract amount fee account_nonce stake_unlock [])
          account_nonce chain_state_hash
