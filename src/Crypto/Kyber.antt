-- ===== src/Crypto/Kyber.antt =====
-- src/crypto/kyber.rs: the key exchange of two nodes.
use kyvera_core.Prelude.{none, some, Text, Result, ok, err}
use kyvera_core.Chain.Hash.{Hasher}
use kyvera_core.Crypto.Schemes.{Schemes}
use kyvera_core.Crypto.Dilithium.{
  CryptoError, bad_secret_key, bad_public_key, bad_hex, bad_ciphertext,
}

pub record KyberKeyPair : Type 0 where
  pub public_key : Text
  pub secret_key : Text

pub record KyberEncapsulation : Type 0 where
  pub ciphertext : Text
  pub shared_secret : Text

module _ ⦃schemes : Schemes⦄ ⦃h : Hasher⦄ where
  open schemes use {kyber768, hex_decode}

  unfoldable pub generate : Text → KyberKeyPair
  generate seed = record {
    public_key = kyber768.public_bytes (kyber768.keypair seed).0;
    secret_key = kyber768.secret_bytes (kyber768.keypair seed).1;
  }

  unfoldable pub encapsulate : Text → Text → Result CryptoError KyberEncapsulation
  encapsulate coins public_key_hex = elim (hex_decode public_key_hex) [
    | none ↦ err bad_hex
    | some pk_bytes ↦ elim (kyber768.public_from_bytes pk_bytes) [
      | none ↦ err bad_public_key
      | some pk ↦ ok (record {
        ciphertext = kyber768.ciphertext_bytes (kyber768.encapsulate coins pk).1;
        shared_secret = kyber768.shared_secret_bytes (kyber768.encapsulate coins pk).0;
      })
    ]
  ]

  unfoldable pub decapsulate : KyberKeyPair → Text → Result CryptoError Text
  decapsulate pair ciphertext_hex = elim (kyber768.secret_from_bytes pair.secret_key) [
    | none ↦ err bad_secret_key
    | some sk ↦ elim (hex_decode ciphertext_hex) [
      | none ↦ err bad_hex
      | some ct_bytes ↦ elim (kyber768.ciphertext_from_bytes ct_bytes) [
        | none ↦ err bad_ciphertext
        | some ct ↦ ok (kyber768.shared_secret_bytes (kyber768.decapsulate ct sk))
      ]
    ]
  ]

  unfoldable pub public_key_hex : KyberKeyPair → Text
  public_key_hex pair = h.hex_encode pair.public_key

  unfoldable pub ciphertext_hex : KyberEncapsulation → Text
  ciphertext_hex e = h.hex_encode e.ciphertext

  unfoldable pub shared_secret_hex : KyberEncapsulation → Text
  shared_secret_hex e = h.hex_encode e.shared_secret
