-- ===== src/Crypto/Identity/Roundtrip.antt =====
-- What one side makes and the other side takes.
use kyvera_core.Prelude.{◌≡◌, true, Text, ok}
use kyvera_core.Chain.Hash.{Hasher}
use kyvera_core.Crypto.Schemes.{Schemes, Sound}
use kyvera_core.Crypto.Dilithium as Dilithium
use kyvera_core.Crypto.Dilithium.{KyveraSignature}
use kyvera_core.Crypto.Kyber as Kyber
use kyvera_core.Crypto.Kyber.{KyberEncapsulation}
use kyvera_core.Crypto.Sphincs as Sphincs
use kyvera_core.Crypto.Sphincs.{SphincsSignature}
use kyvera_core.Crypto.Identity.{
  TransactionNonce, generate, sign_transaction, verify_transaction_signature, sign_epoch_block,
  verify_epoch_block_signature, initiate_session, accept_session, bind_message_to_nonce,
}

module _ ⦃schemes : Schemes⦄ ⦃h : Hasher⦄ (sound : Sound schemes h) where
  open sound use {dilithium3_ok, sphincs_ok, kyber768_ok, hex_ok}

  pub sign-verify :
      (seed coins message : Text)
      → (s : KyveraSignature) × (Dilithium.sign coins (Dilithium.generate seed) message ≡ ok s)
        × (Dilithium.from_hex (Dilithium.to_hex s) ≡ ok s)
        × (Dilithium.verify s message (Dilithium.public_key_hex (Dilithium.generate seed)) ≡ true)
  unfolding Dilithium.sign Dilithium.generate Dilithium.verify Dilithium.public_key_hex
      Dilithium.from_hex Dilithium.to_hex
  sign-verify seed coins message =
      let scheme = schemes.dilithium3 in
      let pair = scheme.keypair seed in
      let signature = scheme.detached_sign coins message pair.1 in
      (
        record { signature_bytes = scheme.signature_as_bytes signature },
        rw (Dilithium.sign, dilithium3_ok.secret_ok pair.1),
        rw (Dilithium.from_hex, Dilithium.to_hex, hex_ok (scheme.signature_as_bytes signature)),
        rw (
          Dilithium.verify,
          Dilithium.public_key_hex,
          hex_ok (scheme.public_bytes pair.0),
          dilithium3_ok.public_ok pair.0,
          dilithium3_ok.signature_ok signature,
          dilithium3_ok.verify_ok seed coins message,
        ),
      )

  -- With schemes that behave as documented: a generated identity signs every payload with every
  -- nonce, and the hex of the signature verifies for that payload and nonce under the hex of the
  -- identity's public key.
  pub verify_transaction_signature-sign_transaction :
      (seed₁ seed₂ seed₃ coins payload : Text) (nonce : TransactionNonce)
      → (s : KyveraSignature) × (sign_transaction coins (generate seed₁ seed₂ seed₃) payload nonce
          ≡ ok s)
        × (verify_transaction_signature payload nonce
              (Dilithium.to_hex s)
              (Dilithium.public_key_hex (generate seed₁ seed₂ seed₃).signing_keypair)
            ≡ true)
  unfolding sign_transaction verify_transaction_signature generate
  verify_transaction_signature-sign_transaction seed₁ seed₂ seed₃ coins payload nonce =
      let (s, signed, read, verified) =
        sign-verify seed₁ coins (bind_message_to_nonce payload nonce) in
      (s, signed, rw (verify_transaction_signature, read, verified))

  -- With schemes that behave as documented: the secret that a node gets when it opens a session with
  -- the hex of a generated identity's network key is the one that the identity gets from the hex of
  -- the ciphertext.
  pub accept_session-initiate_session :
      (seed₁ seed₂ seed₃ coins : Text)
      → (e : KyberEncapsulation) × (initiate_session coins
            (Kyber.public_key_hex (generate seed₁ seed₂ seed₃).network_keypair)
          ≡ ok e)
        × (accept_session (generate seed₁ seed₂ seed₃) (Kyber.ciphertext_hex e)
            ≡ ok e.shared_secret)
  unfolding initiate_session accept_session generate Kyber.generate Kyber.encapsulate
      Kyber.decapsulate Kyber.public_key_hex Kyber.ciphertext_hex
  accept_session-initiate_session seed₁ seed₂ seed₃ coins =
      let scheme = schemes.kyber768 in
      let pair = scheme.keypair seed₂ in
      let made = scheme.encapsulate coins pair.0 in
      (
        record {
          ciphertext = scheme.ciphertext_bytes made.1;
          shared_secret = scheme.shared_secret_bytes made.0;
        },
        rw (
          Kyber.encapsulate,
          Kyber.public_key_hex,
          hex_ok (scheme.public_bytes pair.0),
          kyber768_ok.public_ok pair.0,
        ),
        rw (
          Kyber.decapsulate,
          Kyber.ciphertext_hex,
          kyber768_ok.secret_ok pair.1,
          hex_ok (scheme.ciphertext_bytes made.1),
          kyber768_ok.ciphertext_ok made.1,
          kyber768_ok.decapsulate_ok seed₂ coins,
        ),
      )

  -- With schemes that behave as documented: a generated identity signs every epoch header, and the
  -- hex of the signature verifies under the hex of the identity's epoch key.
  pub verify_epoch_block_signature-sign_epoch_block :
      (seed₁ seed₂ seed₃ coins header : Text)
      → (s : SphincsSignature) × (sign_epoch_block coins (generate seed₁ seed₂ seed₃) header ≡ ok s)
        × (verify_epoch_block_signature header
              (Sphincs.to_hex s)
              (Sphincs.public_key_hex (generate seed₁ seed₂ seed₃).epoch_keypair)
            ≡ true)
  unfolding sign_epoch_block verify_epoch_block_signature generate Sphincs.generate Sphincs.sign
      Sphincs.verify Sphincs.public_key_hex Sphincs.from_hex Sphincs.to_hex
  verify_epoch_block_signature-sign_epoch_block seed₁ seed₂ seed₃ coins header =
      let scheme = schemes.sphincs in
      let pair = scheme.keypair seed₃ in
      let signature = scheme.detached_sign coins header pair.1 in
      (
        record { signature_bytes = scheme.signature_as_bytes signature },
        rw (Sphincs.sign, sphincs_ok.secret_ok pair.1),
        rw (
          verify_epoch_block_signature,
          Sphincs.from_hex,
          Sphincs.to_hex,
          hex_ok (scheme.signature_as_bytes signature),
          Sphincs.verify,
          Sphincs.public_key_hex,
          hex_ok (scheme.public_bytes pair.0),
          sphincs_ok.public_ok pair.0,
          sphincs_ok.signature_ok signature,
          sphincs_ok.verify_ok seed₃ coins header,
        ),
      )
