-- ===== src/Examples/Secrets.antt =====
-- Signatures, sessions and wallet files with small schemes.
use kyvera_core.Prelude.{
  starts_with, ◌≡◌, refl, true, false, [], ◌++◌, some, none, Option, Text, codes, text_eq,
  text_eq_refl, is_utf8, ok, err, if◌then◌else◌, replicate,
}
use kyvera_core.Prelude.Int.{pos}
use kyvera_core.Types.Transaction.{Transaction, transfer, new}
use kyvera_core.Storage.Db.{entry_at}
use kyvera_core.Crypto.Schemes.{SignatureScheme, KemScheme, Schemes, Signs, Sound}
use kyvera_core.Crypto.Dilithium as Dilithium
use kyvera_core.Crypto.Dilithium.{KyveraSignature}
use kyvera_core.Crypto.Kyber as Kyber
use kyvera_core.Crypto.Kyber.{KyberEncapsulation}
use kyvera_core.Crypto.Sphincs as Sphincs
use kyvera_core.Crypto.Identity.{
  TransactionNonce, new_nonce, generate, sign_transaction, verify_transaction_signature,
  initiate_session, accept_session,
}
use kyvera_core.Crypto.Identity.Roundtrip.{
  verify_transaction_signature-sign_transaction, accept_session-initiate_session,
}
use kyvera_core.Wallet.Keys as Keys
use kyvera_core.Wallet.Keys.{KyveraWallet, verify_address_integrity}
use kyvera_core.Wallet.Builder.{
  Draw, build_transfer, validate_address, all_hexdigits, is_ascii_hexdigit,
}
use kyvera_core.Wallet.Builder.Signed.{SignedFrom, build_transfer-SignedFrom}
use kyvera_core.Wallet.Storage.{
  Cipher, Files, decryption_failed, temp_path, wallet_exists, save_wallet, save_wallet_v2,
  load_wallet, derive_encryption_key, derive_key_for_storage,
}
use kyvera_core.Wallet.Storage.Reload.{Opens, load_wallet-save_wallet_v2, load_wallet-save_wallet}
use kyvera_core.Examples.Codecs.{
  transaction_codec, transaction_lossless, wallet_codec, wallet_lossless,
}
use kyvera_core.Examples.Hashing.{toy_hasher}
use kyvera_core.Examples.Serial.{text}

-- A signature is the key with the message behind it.
abbrev toy_signing : SignatureScheme
toy_signing = record {
  PublicKey = Text;
  SecretKey = Text;
  DetachedSignature = Text;
  keypair = λ seed. (seed, seed);
  public_bytes = λ k. k;
  secret_bytes = λ k. k;
  signature_as_bytes = λ s. s;
  public_from_bytes = λ s. some s;
  secret_from_bytes = λ s. some s;
  signature_from_bytes = λ s. some s;
  detached_sign = λ coins message k. k ++ message;
  verify_detached_signature = λ s message k. text_eq s (k ++ message);
}

abbrev toy_exchange : KemScheme
toy_exchange = record {
  PublicKey = Text;
  SecretKey = Text;
  Ciphertext = Text;
  SharedSecret = Text;
  keypair = λ seed. (seed, seed);
  public_bytes = λ k. k;
  secret_bytes = λ k. k;
  ciphertext_bytes = λ c. c;
  shared_secret_bytes = λ s. s;
  public_from_bytes = λ s. some s;
  secret_from_bytes = λ s. some s;
  ciphertext_from_bytes = λ s. some s;
  encapsulate = λ coins k. (k ++ coins, coins);
  decapsulate = λ c k. k ++ c;
}

instance abbrev toy_schemes : Schemes
toy_schemes = record {
  dilithium3 = toy_signing;
  sphincs = toy_signing;
  kyber768 = toy_exchange;
  hex_decode = λ s. some s;
}

abbrev toy_signs : Signs toy_signing
toy_signs = record {
  public_ok = λ k. refl;
  secret_ok = λ k. refl;
  signature_ok = λ s. refl;
  verify_ok = λ seed coins message. text_eq_refl (seed ++ message);
}

abbrev toy_sound : Sound toy_schemes toy_hasher
toy_sound = record {
  dilithium3_ok = toy_signs;
  sphincs_ok = toy_signs;
  kyber768_ok = record {
    public_ok = λ k. refl;
    secret_ok = λ k. refl;
    ciphertext_ok = λ c. refl;
    decapsulate_ok = λ seed coins. refl;
  };
  hex_ok = λ bytes. refl;
}

abbrev some_nonce : TransactionNonce
some_nonce = new_nonce (pos 7) 3 (codes "root")

verify_transaction_signature-sign_transaction_example :
    (s : KyveraSignature) × (sign_transaction
        (codes "c")
        (generate (codes "a") (codes "b") (codes "d"))
        (codes "pay")
        some_nonce
      ≡ ok s)
    × (verify_transaction_signature
          (codes "pay")
          some_nonce
          (Dilithium.to_hex s)
          (Dilithium.public_key_hex (generate (codes "a") (codes "b") (codes "d")).signing_keypair)
        ≡ true)
verify_transaction_signature-sign_transaction_example =
    verify_transaction_signature-sign_transaction toy_sound (codes "a") (codes "b") (codes "d")
      (codes "c") (codes "pay") some_nonce

accept_session-initiate_session_example :
    (e : KyberEncapsulation) × (initiate_session
        (codes "c")
        (Kyber.public_key_hex (generate (codes "a") (codes "b") (codes "d")).network_keypair)
      ≡ ok e)
    × (accept_session (generate (codes "a") (codes "b") (codes "d")) (Kyber.ciphertext_hex e)
        ≡ ok e.shared_secret)
accept_session-initiate_session_example =
    accept_session-initiate_session toy_sound (codes "a") (codes "b") (codes "d") (codes "c")

abbrev draw : Draw
draw = record { now = pos 10; nonce_now = pos 11; coins = codes "c" }

abbrev my_wallet : KyveraWallet
my_wallet = Keys.generate (pos 1) (codes "a") (codes "b") (codes "d") (codes "main")

abbrev recipient : Text
recipient = codes "kyv1" ++ replicate 64 b'a'

build_transfer-SignedFrom_example :
    (tx : Transaction) × (build_transfer draw my_wallet recipient 5 1 0 (codes "root") ≡ ok tx)
    × SignedFrom toy_sound transaction_lossless
        (new (pos 10) my_wallet.address recipient 5 1 0 transfer [])
        (new_nonce (pos 11) 0 (codes "root"))
        (Keys.public_key_hex my_wallet)
        tx
build_transfer-SignedFrom_example =
    build_transfer-SignedFrom toy_sound transaction_lossless draw (pos 1) (codes "a") (codes "b")
      (codes "d") (codes "main") recipient 5 1 0 (codes "root") refl
      (unfold validate_address all_hexdigits is_ascii_hexdigit starts_with in refl)

-- The key in front of the text, which a decryption compares.
abbrev unsealed : Text → Option (Text × Text) → Option Text
unsealed key none = none
unsealed key (some (key', message)) = if text_eq key' key then some message else none

instance abbrev toy_cipher : Cipher
toy_cipher = record {
  encrypt = λ key nonce message. some (text.write key ++ message);
  decrypt = λ key nonce sealed. unsealed key (text.read sealed);
}

unsealed_ok :
    (key message : Text) → unsealed key (text.read (text.write key ++ message)) ≡ some message
unsealed_ok key message = rw (text.read-write key message, text_eq_refl key)

abbrev toy_opens : Opens toy_cipher
toy_opens = record {
  sealed = λ key nonce message. text.write key ++ message;
  encrypt_ok = λ key nonce message. refl;
  decrypt_ok = λ key nonce message. unsealed_ok key message;
}

abbrev no_files : Files
no_files = record { contents = []; denied = λ path. false }

abbrev twelve : Text
twelve = replicate 12 7

load_wallet-save_wallet_v2_example :
    (files : Files) × (save_wallet_v2 twelve my_wallet (codes "w") (codes "pw") no_files
      ≡ (ok tt, files))
    × (load_wallet (codes "w") (codes "pw") files ≡ (ok my_wallet, files))
    × (wallet_exists (codes "w") files ≡ true)
    × ((p : Text)
        → entry_at files.contents p ≡ (
            if text_eq (codes "w") p
            then entry_at files.contents (codes "w")
            else if text_eq (temp_path (codes "w")) p
            then none
            else entry_at [] p))
load_wallet-save_wallet_v2_example =
    load_wallet-save_wallet_v2 toy_opens wallet_lossless twelve my_wallet (codes "w") (codes "pw")
      no_files (refl, refl) refl
      (unfold is_utf8 Keys.generate Dilithium.generate Dilithium.address Kyber.generate
          Sphincs.generate in
        refl)
      (unfold verify_address_integrity Keys.generate Dilithium.generate Dilithium.address text_eq in
        refl)

load_wallet-save_wallet_example :
    (files : Files) × (save_wallet twelve my_wallet (codes "w") (codes "pw") no_files
      ≡ (ok tt, files))
    × (load_wallet (codes "w") (codes "pw") files ≡ (err decryption_failed, files))
load_wallet-save_wallet_example =
    load_wallet-save_wallet toy_opens wallet_lossless twelve my_wallet (codes "w") (codes "pw")
      no_files (refl, refl) refl
      (unfold derive_key_for_storage derive_encryption_key Keys.generate Dilithium.generate
          Dilithium.address text_eq in
        refl)
