-- ===== src/Crypto/Schemes.antt =====
-- The crates that src/crypto calls, as parameters: `pqcrypto_dilithium`, `pqcrypto_sphincsplus`,
-- `pqcrypto_kyber` and `hex::decode`. The randomness that a call draws is an argument.
use kyvera_core.Prelude.{◌≡◌, Bool, true, Option, some, Text}
use kyvera_core.Chain.Hash.{Hasher}

-- A scheme for detached signatures.
pub record SignatureScheme : Type 1 where
  pub PublicKey : Type 0
  pub SecretKey : Type 0
  pub DetachedSignature : Type 0
  pub keypair : Text → PublicKey × SecretKey
  pub public_bytes : PublicKey → Text
  pub secret_bytes : SecretKey → Text
  pub signature_as_bytes : DetachedSignature → Text
  pub public_from_bytes : Text → Option PublicKey
  pub secret_from_bytes : Text → Option SecretKey
  pub signature_from_bytes : Text → Option DetachedSignature
  pub detached_sign : Text → Text → SecretKey → DetachedSignature
  pub verify_detached_signature : DetachedSignature → Text → PublicKey → Bool

-- A key encapsulation mechanism.
pub record KemScheme : Type 1 where
  pub PublicKey : Type 0
  pub SecretKey : Type 0
  pub Ciphertext : Type 0
  pub SharedSecret : Type 0
  pub keypair : Text → PublicKey × SecretKey
  pub public_bytes : PublicKey → Text
  pub secret_bytes : SecretKey → Text
  pub ciphertext_bytes : Ciphertext → Text
  pub shared_secret_bytes : SharedSecret → Text
  pub public_from_bytes : Text → Option PublicKey
  pub secret_from_bytes : Text → Option SecretKey
  pub ciphertext_from_bytes : Text → Option Ciphertext
  pub encapsulate : Text → PublicKey → SharedSecret × Ciphertext
  pub decapsulate : Ciphertext → SecretKey → SharedSecret

pub record Schemes : Type 1 where
  pub dilithium3 : SignatureScheme
  pub sphincs : SignatureScheme
  pub kyber768 : KemScheme
  pub hex_decode : Text → Option Text

-- The documented behaviour of a signature scheme: keys and signatures survive their bytes, and a
-- signature by a generated secret key verifies under its public key.
pub record Signs (scheme : SignatureScheme) : Type 0 where
  pub public_ok : (k : scheme.PublicKey) → scheme.public_from_bytes (scheme.public_bytes k) ≡ some k
  pub secret_ok : (k : scheme.SecretKey) → scheme.secret_from_bytes (scheme.secret_bytes k) ≡ some k
  pub signature_ok :
      (s : scheme.DetachedSignature)
      → scheme.signature_from_bytes (scheme.signature_as_bytes s) ≡ some s
  pub verify_ok :
      (seed coins message : Text)
      → scheme.verify_detached_signature
          (scheme.detached_sign coins message (scheme.keypair seed).1)
          message
          (scheme.keypair seed).0
        ≡ true

-- The documented behaviour of an encapsulation: the two sides get the same secret.
pub record Shares (scheme : KemScheme) : Type 0 where
  pub public_ok : (k : scheme.PublicKey) → scheme.public_from_bytes (scheme.public_bytes k) ≡ some k
  pub secret_ok : (k : scheme.SecretKey) → scheme.secret_from_bytes (scheme.secret_bytes k) ≡ some k
  pub ciphertext_ok :
      (c : scheme.Ciphertext) → scheme.ciphertext_from_bytes (scheme.ciphertext_bytes c) ≡ some c
  pub decapsulate_ok :
      (seed coins : Text)
      → scheme.decapsulate
          (scheme.encapsulate coins (scheme.keypair seed).0).1
          (scheme.keypair seed).1
        ≡ (scheme.encapsulate coins (scheme.keypair seed).0).0

-- The documented behaviour of all of them; decoding undoes `hex::encode`.
pub record Sound (schemes : Schemes) (h : Hasher) : Type 0 where
  pub dilithium3_ok : Signs schemes.dilithium3
  pub sphincs_ok : Signs schemes.sphincs
  pub kyber768_ok : Shares schemes.kyber768
  pub hex_ok : (bytes : Text) → schemes.hex_decode (h.hex_encode bytes) ≡ some bytes
