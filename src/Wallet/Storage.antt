-- ===== src/Wallet/Storage.antt =====
-- src/wallet/storage.rs: encrypted wallet files. The cipher of the crate `aes_gcm` is the parameter
-- `Cipher`; the nonce that a save draws is an argument. The files that a wallet touches are an
-- association list; paths that the system refuses answer with an error.
pub mod Reload
use kyvera_core.Prelude.{
  ℕ, ◌+◌, Bool, true, false, not, Option, none, some, List, ◌++◌, Text, Result, ok, err, codes,
  is_utf8, text_eq, take, drop, length, ltb, if◌then◌else◌,
}
use kyvera_core.Chain.Hash.{Hasher}
use kyvera_core.Storage.Db.{Codec, entry_at, put_entry, drop_entry}
use kyvera_core.Crypto.Schemes.{Schemes}
use kyvera_core.Wallet.Keys.{KyveraWallet, verify_address_integrity}

-- `Aes256Gcm`: key, nonce, text.
pub record Cipher : Type 0 where
  pub encrypt : Text → Text → Text → Option Text
  pub decrypt : Text → Text → Text → Option Text

pub data StorageError : Type 0 where
  io_error decryption_failed invalid_wallet_file : StorageError
  deserialization_failed serialization_failed : StorageError

-- The file system: the contents by path, and the paths that it refuses.
pub record Files : Type 0 where
  pub contents : List (Text × Text)
  pub denied : Text → Bool

abbrev pub Io : Type 0 → Type 0
Io A = Files → Result StorageError A × Files

infixl 5 ◌>>=◌ ◌>>◌
abbrev pub continue : {A B : Type 0} → Result StorageError A → (A → Io B) → Io B
continue (ok a) f files = f a files
continue (err e) f files = (err e, files)

abbrev pub ◌>>=◌ : {A B : Type 0} → Io A → (A → Io B) → Io B
◌>>=◌ m f files = continue (m files).0 f (m files).1

abbrev pub ◌>>◌ : {B : Type 0} → Io (Unit {0}) → Io B → Io B
m >> k = m >>= λ _. k

abbrev pub from : {A : Type 0} → Option A → StorageError → Io A
from none e files = (err e, files)
from (some a) e files = (ok a, files)

abbrev pub require : Bool → StorageError → Io (Unit {0})
require b e files = (if b then ok tt else err e, files)

-- `fs::write`, `fs::rename`, `fs::read`, `fs::remove_file` and `Path::exists`.
unfoldable pub write_file : Text → Text → Io (Unit {0})
write_file path bytes files =
    if files.denied path
    then (err io_error, files)
    else (ok tt, record files { contents = put_entry path bytes files.contents })

unfoldable pub read_file : Text → Io Text
read_file path files =
    if files.denied path
    then (err io_error, files)
    else from (entry_at files.contents path) io_error files

unfoldable pub remove_file : Text → Io (Unit {0})
remove_file path files = elim (entry_at files.contents path) [
  | none ↦ (err io_error, files)
  | some bytes ↦
      if files.denied path
      then (err io_error, files)
      else (ok tt, record files { contents = drop_entry path files.contents })
]

unfoldable pub rename_file : Text → Text → Io (Unit {0})
rename_file old path files = elim (entry_at files.contents old) [
  | none ↦ (err io_error, files)
  | some bytes ↦
      if files.denied path
      then (err io_error, files)
      else (ok tt, record files { contents = put_entry path bytes (drop_entry old files.contents) })
]

abbrev pub wallet_magic : Text
wallet_magic = codes "KYVERAWALLET01"

abbrev pub nonce_size : ℕ
nonce_size = 12

abbrev pub key_domain : Text
key_domain = codes "kyvera-wallet-encryption-v1"

unfoldable pub derive_encryption_key : ⦃h : Hasher⦄ → Text → Text → Text
derive_encryption_key ⦃h⦄ password wallet_address =
    h.digest (password ++ (wallet_address ++ key_domain))

unfoldable pub derive_key_for_storage : ⦃h : Hasher⦄ → Text → Text
derive_key_for_storage ⦃h⦄ password = h.digest (password ++ key_domain)

unfoldable pub temp_path : Text → Text
temp_path path = path ++ codes ".tmp"

unfoldable pub wallet_exists : Text → Files → Bool
wallet_exists path files = elim (entry_at files.contents path) [ none ↦ false | some bytes ↦ true ]

unfoldable pub delete_wallet : Text → Io (Unit {0})
unfolding remove_file
delete_wallet path = remove_file path

module _ ⦃cipher : Cipher⦄ ⦃codec : Codec KyveraWallet⦄ where
  -- The end that the two saves share: encrypt, assemble, write beside and rename.
  unfoldable pub save_with_key : Text → Text → KyveraWallet → Text → Io (Unit {0})
  unfolding write_file rename_file temp_path
  save_with_key nonce key wallet path = do
    json ← from (codec.to_vec wallet) serialization_failed
    ciphertext ← from (cipher.encrypt key nonce json) decryption_failed
    write_file (temp_path path) (wallet_magic ++ (nonce ++ ciphertext))
    rename_file (temp_path path) path

  unfoldable pub save_wallet : ⦃h : Hasher⦄ → Text → KyveraWallet → Text → Text → Io (Unit {0})
  unfolding save_with_key derive_encryption_key
  save_wallet nonce wallet path password =
      save_with_key nonce (derive_encryption_key password wallet.address) wallet path

  unfoldable pub save_wallet_v2 : ⦃h : Hasher⦄ → Text → KyveraWallet → Text → Text → Io (Unit {0})
  unfolding save_with_key derive_key_for_storage
  save_wallet_v2 nonce wallet path password =
      save_with_key nonce (derive_key_for_storage password) wallet path

  unfoldable pub load_wallet : ⦃schemes : Schemes⦄ → ⦃h : Hasher⦄ → Text → Text → Io KyveraWallet
  unfolding read_file derive_key_for_storage verify_address_integrity
  load_wallet path password = do
    file_contents ← read_file path
    require (not (ltb (length file_contents) (length wallet_magic + nonce_size)))
        invalid_wallet_file
    require (text_eq (take (length wallet_magic) file_contents) wallet_magic) invalid_wallet_file
    plaintext ←
        from
          (cipher.decrypt (derive_key_for_storage password)
            (take nonce_size (drop (length wallet_magic) file_contents))
            (drop (length wallet_magic + nonce_size) file_contents))
          decryption_failed
    require (is_utf8 plaintext) decryption_failed
    wallet ← from (codec.from_slice plaintext) deserialization_failed
    require (verify_address_integrity wallet) deserialization_failed
    λ files. (ok wallet, files)
