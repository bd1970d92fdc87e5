-- ===== src/Crypto/Identity.antt =====
-- src/crypto/mod.rs: the identity of a wallet, and signatures bound to a nonce. The clock and the
-- randomness are arguments.
pub mod Roundtrip
use kyvera_core.Prelude.{ℕ, Bool, false, Text, Result, ok, err, ◌++◌}
use kyvera_core.Prelude.Int.{ℤ}
use kyvera_core.Chain.Hash.{Hasher, to_le_bytes, to_le_bytes_ℤ}
use kyvera_core.Crypto.Schemes.{Schemes}
use kyvera_core.Crypto.Dilithium as Dilithium
use kyvera_core.Crypto.Dilithium.{CryptoError, KyveraKeyPair, KyveraSignature}
use kyvera_core.Crypto.Kyber as Kyber
use kyvera_core.Crypto.Kyber.{KyberKeyPair, KyberEncapsulation}
use kyvera_core.Crypto.Sphincs as Sphincs
use kyvera_core.Crypto.Sphincs.{SphincsKeyPair, SphincsSignature}

pub record KyveraIdentity : Type 0 where
  pub signing_keypair : KyveraKeyPair
  pub network_keypair : KyberKeyPair
  pub epoch_keypair : SphincsKeyPair
  pub address : Text

pub record TransactionNonce : Type 0 where
  pub account_nonce : ℕ
  pub timestamp_ms : ℤ
  pub chain_state_hash : Text

unfoldable pub new_nonce : ℤ → ℕ → Text → TransactionNonce
new_nonce now account_nonce chain_state_hash = record {
  account_nonce = account_nonce;
  timestamp_ms = now;
  chain_state_hash = chain_state_hash;
}

module _ ⦃schemes : Schemes⦄ ⦃h : Hasher⦄ where
  -- Three independent draws of randomness.
  unfoldable pub generate : Text → Text → Text → KyveraIdentity
  unfolding Dilithium.generate Dilithium.address Kyber.generate Sphincs.generate
  generate seed₁ seed₂ seed₃ = record {
    signing_keypair = Dilithium.generate seed₁;
    network_keypair = Kyber.generate seed₂;
    epoch_keypair = Sphincs.generate seed₃;
    address = Dilithium.address (Dilithium.generate seed₁);
  }

  unfoldable pub bind_message_to_nonce : Text → TransactionNonce → Text
  bind_message_to_nonce message nonce = h.digest (
      message
      ++ (to_le_bytes nonce.account_nonce
          ++ (to_le_bytes_ℤ nonce.timestamp_ms ++ nonce.chain_state_hash)))

  unfoldable pub sign_transaction :
      Text → KyveraIdentity → Text → TransactionNonce → Result CryptoError KyveraSignature
  unfolding Dilithium.sign bind_message_to_nonce
  sign_transaction coins identity transaction_bytes nonce =
      Dilithium.sign coins identity.signing_keypair (bind_message_to_nonce transaction_bytes nonce)

  unfoldable pub sign_epoch_block :
      Text → KyveraIdentity → Text → Result CryptoError SphincsSignature
  unfolding Sphincs.sign
  sign_epoch_block coins identity header_bytes =
      Sphincs.sign coins identity.epoch_keypair header_bytes

  unfoldable pub initiate_session : Text → Text → Result CryptoError KyberEncapsulation
  unfolding Kyber.encapsulate
  initiate_session coins peer_public_key_hex = Kyber.encapsulate coins peer_public_key_hex

  unfoldable pub accept_session : KyveraIdentity → Text → Result CryptoError Text
  unfolding Kyber.decapsulate
  accept_session identity ciphertext_hex = Kyber.decapsulate identity.network_keypair ciphertext_hex

  unfoldable pub verify_transaction_signature : Text → TransactionNonce → Text → Text → Bool
  unfolding bind_message_to_nonce Dilithium.from_hex Dilithium.verify
  verify_transaction_signature transaction_bytes nonce signature_hex public_key_hex =
      elim (Dilithium.from_hex signature_hex) [
        | err e ↦ false
        | ok signature ↦
            Dilithium.verify signature (bind_message_to_nonce transaction_bytes nonce)
              public_key_hex
      ]

  unfoldable pub verify_epoch_block_signature : Text → Text → Text → Bool
  unfolding Sphincs.from_hex Sphincs.verify
  verify_epoch_block_signature header_bytes signature_hex public_key_hex =
      elim (Sphincs.from_hex signature_hex) [
        | err e ↦ false
        | ok signature ↦ Sphincs.verify signature header_bytes public_key_hex
      ]

  unfoldable pub sha3_256 : Text → Text
  sha3_256 input = h.hex_encode (h.digest input)
