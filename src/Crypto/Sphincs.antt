-- ===== src/Crypto/Sphincs.antt =====
-- src/crypto/sphincs.rs: key pairs and signatures of epoch blocks.
use kyvera_core.Prelude.{Bool, false, none, some, Text, Result, ok, err}
use kyvera_core.Chain.Hash.{Hasher}
use kyvera_core.Crypto.Schemes.{Schemes}
use kyvera_core.Crypto.Dilithium.{CryptoError, bad_secret_key, bad_hex}

pub record SphincsKeyPair : Type 0 where
  pub public_key : Text
  pub secret_key : Text

pub record SphincsSignature : Type 0 where
  pub signature_bytes : Text

module _ ⦃schemes : Schemes⦄ ⦃h : Hasher⦄ where
  open schemes use {sphincs, hex_decode}

  unfoldable pub generate : Text → SphincsKeyPair
  generate seed = record {
    public_key = sphincs.public_bytes (sphincs.keypair seed).0;
    secret_key = sphincs.secret_bytes (sphincs.keypair seed).1;
  }

  unfoldable pub sign : Text → SphincsKeyPair → Text → Result CryptoError SphincsSignature
  sign coins pair message = elim (sphincs.secret_from_bytes pair.secret_key) [
    | none ↦ err bad_secret_key
    | some sk ↦ ok (record {
      signature_bytes = sphincs.signature_as_bytes (sphincs.detached_sign coins message sk);
    })
  ]

  unfoldable pub public_key_hex : SphincsKeyPair → Text
  public_key_hex pair = h.hex_encode pair.public_key

  unfoldable pub verify : SphincsSignature → Text → Text → Bool
  verify signature message public_key_hex' = elim (hex_decode public_key_hex') [
    | none ↦ false
    | some pk_bytes ↦ elim (sphincs.public_from_bytes pk_bytes) [
      | none ↦ false
      | some pk ↦ elim (sphincs.signature_from_bytes signature.signature_bytes) [
        | none ↦ false
        | some sig ↦ sphincs.verify_detached_signature sig message pk
      ]
    ]
  ]

  unfoldable pub to_hex : SphincsSignature → Text
  to_hex signature = h.hex_encode signature.signature_bytes

  unfoldable pub from_hex : Text → Result CryptoError SphincsSignature
  from_hex hex_str = elim (hex_decode hex_str) [
    | none ↦ err bad_hex
    | some bytes ↦ ok (record { signature_bytes = bytes })
  ]
