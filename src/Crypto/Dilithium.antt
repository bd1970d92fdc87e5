-- ===== src/Crypto/Dilithium.antt =====
-- src/crypto/dilithium.rs: key pairs, addresses and signatures of transactions.
use kyvera_core.Prelude.{Bool, false, none, some, Text, Result, ok, err, codes, ◌++◌}
use kyvera_core.Chain.Hash.{Hasher}
use kyvera_core.Crypto.Schemes.{Schemes}

pub data CryptoError : Type 0 where
  bad_secret_key bad_public_key bad_hex bad_ciphertext : CryptoError

pub record KyveraKeyPair : Type 0 where
  pub public_key : Text
  pub secret_key : Text

pub record KyveraSignature : Type 0 where
  pub signature_bytes : Text

module _ ⦃schemes : Schemes⦄ ⦃h : Hasher⦄ where
  open schemes use {dilithium3, hex_decode}

  unfoldable pub generate : Text → KyveraKeyPair
  generate seed = record {
    public_key = dilithium3.public_bytes (dilithium3.keypair seed).0;
    secret_key = dilithium3.secret_bytes (dilithium3.keypair seed).1;
  }

  -- `format!("kyv1{}", hex::encode(hash))`.
  unfoldable pub address : KyveraKeyPair → Text
  address pair = codes "kyv1" ++ h.hex_encode (h.digest pair.public_key)

  unfoldable pub sign : Text → KyveraKeyPair → Text → Result CryptoError KyveraSignature
  sign coins pair message = elim (dilithium3.secret_from_bytes pair.secret_key) [
    | none ↦ err bad_secret_key
    | some sk ↦ ok (record {
      signature_bytes = dilithium3.signature_as_bytes (dilithium3.detached_sign coins message sk);
    })
  ]

  unfoldable pub public_key_hex : KyveraKeyPair → Text
  public_key_hex pair = h.hex_encode pair.public_key

  unfoldable pub verify : KyveraSignature → Text → Text → Bool
  verify signature message public_key_hex' = elim (hex_decode public_key_hex') [
    | none ↦ false
    | some pk_bytes ↦ elim (dilithium3.public_from_bytes pk_bytes) [
      | none ↦ false
      | some pk ↦ elim (dilithium3.signature_from_bytes signature.signature_bytes) [
        | none ↦ false
        | some sig ↦ dilithium3.verify_detached_signature sig message pk
      ]
    ]
  ]

  unfoldable pub to_hex : KyveraSignature → Text
  to_hex signature = h.hex_encode signature.signature_bytes

  unfoldable pub from_hex : Text → Result CryptoError KyveraSignature
  from_hex hex_str = elim (hex_decode hex_str) [
    | none ↦ err bad_hex
    | some bytes ↦ ok (record { signature_bytes = bytes })
  ]
