-- ===== src/Wallet/Storage/Reload.antt =====
-- A wallet file that was saved and is loaded again.
use kyvera_core.Prelude.{
  ℕ, zero, suc, ◌+◌, ◌≡◌, ◌∙◌, refl, ap, true, false, none, some, [], ◌∷◌, ◌++◌, Text, ok, err,
  is_utf8, text_eq, text_eq_refl, take, drop, length, length-append, ltb, if◌then◌else◌, arith,
}
use kyvera_core.Chain.Hash.{Hasher}
use kyvera_core.Storage.Db.{Codec, Lossless, entry_at, put_entry, drop_entry}
use kyvera_core.Storage.Db.Lookup.{entry_at-put_entry, entry_at-drop_entry}
use kyvera_core.Crypto.Schemes.{Schemes}
use kyvera_core.Wallet.Keys.{KyveraWallet, verify_address_integrity}
use kyvera_core.Wallet.Storage.{
  Cipher, Files, decryption_failed, wallet_magic, nonce_size, derive_encryption_key,
  derive_key_for_storage, temp_path, wallet_exists, save_with_key, save_wallet, save_wallet_v2,
  load_wallet, write_file, rename_file, read_file,
}

-- The documented behaviour of the cipher: a text is decrypted under the key and the nonce that
-- encrypted it.
pub record Opens (cipher : Cipher) : Type 0 where
  pub sealed : Text → Text → Text → Text
  pub encrypt_ok :
      (key nonce text : Text) → cipher.encrypt key nonce text ≡ some (sealed key nonce text)
  pub decrypt_ok :
      (key nonce text : Text) → cipher.decrypt key nonce (sealed key nonce text) ≡ some text

take-append : (xs ys : Text) (n : ℕ) → length xs ≡ n → take n (xs ++ ys) ≡ xs
take-append [] ys zero e = refl
take-append [] ys (suc n) e = absurd (omega arith)
take-append (x ∷ xs) ys zero e = absurd (omega arith)
take-append (x ∷ xs) ys (suc n) e = ap (λ t. x ∷ t) (take-append xs ys n (omega arith))

drop-append : (xs ys : Text) (n : ℕ) → length xs ≡ n → drop n (xs ++ ys) ≡ ys
drop-append [] ys zero e = refl
drop-append [] ys (suc n) e = absurd (omega arith)
drop-append (x ∷ xs) ys zero e = absurd (omega arith)
drop-append (x ∷ xs) ys (suc n) e = drop-append xs ys n (omega arith)

text_eq-temp_path : (path : Text) → text_eq (temp_path path) path ≡ false
unfolding text_eq temp_path
text_eq-temp_path [] = refl
text_eq-temp_path (c ∷ s) = ground (arith, text_eq-temp_path s)

module _ ⦃cipher : Cipher⦄ ⦃codec : Codec KyveraWallet⦄ (opens : Opens cipher)
    (lossless : Lossless codec) where
  open opens use {sealed, encrypt_ok, decrypt_ok}
  open lossless use {encode, to_vec_ok, from_slice_ok}

  -- What a save writes, and the files after it.
  abbrev wallet_file : Text → Text → KyveraWallet → Text
  wallet_file nonce key wallet = wallet_magic ++ (nonce ++ sealed key nonce (encode wallet))

  abbrev pub with_file : Text → Text → KyveraWallet → Text → Files → Files
  with_file nonce key wallet path files = record files {
    contents = put_entry path (wallet_file nonce key wallet) (
        drop_entry (temp_path path)
          (put_entry (temp_path path) (wallet_file nonce key wallet) files.contents));
  }

  -- The paths that a save uses are not refused.
  abbrev pub Allowed : Text → Files → Type 0
  Allowed path files = (files.denied path ≡ false) × (files.denied (temp_path path) ≡ false)

  save_with_key_ok :
      (nonce key : Text) (wallet : KyveraWallet) (path : Text) (files : Files)
      → Allowed path files
      → save_with_key nonce key wallet path files ≡ (ok tt, with_file nonce key wallet path files)
  unfolding save_with_key write_file rename_file entry_at put_entry
  save_with_key_ok nonce key wallet path files (free, temp_free) = rw (
    to_vec_ok wallet,
    encrypt_ok key nonce (encode wallet),
    temp_free,
    entry_at-put_entry files.contents (temp_path path) (wallet_file nonce key wallet)
        (temp_path path),
    text_eq_refl (temp_path path),
    free,
  )

  entry_at-with_file :
      (nonce key : Text) (wallet : KyveraWallet) (path : Text) (files : Files) (p : Text)
      → entry_at (with_file nonce key wallet path files).contents p ≡ (
          if text_eq path p
          then some (wallet_file nonce key wallet)
          else if text_eq (temp_path path) p
          then none
          else entry_at files.contents p)
  entry_at-with_file nonce key wallet path files p =
      let file = wallet_file nonce key wallet in
      let beside = put_entry (temp_path path) file files.contents in
      ground (
        arith,
        entry_at-put_entry (drop_entry (temp_path path) beside) path file p,
        entry_at-drop_entry beside (temp_path path) p,
        entry_at-put_entry files.contents (temp_path path) file p,
      )

  long_enough :
      (nonce c : Text)
      → length nonce ≡ 12
      → ltb (length (wallet_magic ++ (nonce ++ c))) (length wallet_magic + nonce_size) ≡ false
  long_enough nonce c twelve =
      ground (arith, twelve, length-append wallet_magic (nonce ++ c), length-append nonce c)

  -- What loading does with a well-formed file, by what the cipher makes of it.
  load_wallet_rejected :
      ⦃schemes : Schemes⦄
      → ⦃h : Hasher⦄ → (path password nonce c : Text) (files : Files) → files.denied path ≡ false
      → entry_at files.contents path ≡ some (wallet_magic ++ (nonce ++ c))
      → length nonce ≡ 12
      → cipher.decrypt (derive_key_for_storage password) nonce c ≡ none
      → load_wallet path password files ≡ (err decryption_failed, files)
  unfolding load_wallet read_file
  load_wallet_rejected path password nonce c files free found twelve closed = rw (
    free,
    found,
    long_enough nonce c twelve,
    text_eq_refl wallet_magic,
    take-append nonce c 12 twelve,
    drop-append nonce c 12 twelve,
    closed,
  )

  load_wallet_opened :
      ⦃schemes : Schemes⦄
      → ⦃h : Hasher⦄ → (path password nonce c : Text) (wallet : KyveraWallet) (files : Files)
      → files.denied path ≡ false
      → entry_at files.contents path ≡ some (wallet_magic ++ (nonce ++ c))
      → length nonce ≡ 12
      → cipher.decrypt (derive_key_for_storage password) nonce c ≡ some (encode wallet)
      → is_utf8 (encode wallet) ≡ true
      → verify_address_integrity wallet ≡ true
      → load_wallet path password files ≡ (ok wallet, files)
  unfolding load_wallet read_file
  load_wallet_opened path password nonce c wallet files free found twelve opened text intact = rw (
    free,
    found,
    long_enough nonce c twelve,
    text_eq_refl wallet_magic,
    take-append nonce c 12 twelve,
    drop-append nonce c 12 twelve,
    opened,
    text,
    from_slice_ok wallet,
    intact,
  )

  -- With a cipher and a serialisation that behave as documented, a wallet whose address matches its
  -- key and whose JSON is UTF-8, a nonce of twelve bytes, and a path whose file and temporary file
  -- are not refused: `save_wallet_v2` succeeds; loading with the same password returns the wallet;
  -- the file exists, no temporary file is left, and every other path is as before.
  pub load_wallet-save_wallet_v2 :
      ⦃schemes : Schemes⦄
      → ⦃h : Hasher⦄ → (nonce : Text) (wallet : KyveraWallet) (path password : Text) (files : Files)
      → Allowed path files
      → length nonce ≡ 12
      → is_utf8 (encode wallet) ≡ true
      → verify_address_integrity wallet ≡ true
      → (files' : Files) × (save_wallet_v2 nonce wallet path password files ≡ (ok tt, files'))
        × (load_wallet path password files' ≡ (ok wallet, files'))
        × (wallet_exists path files' ≡ true)
        × ((p : Text)
            → entry_at files'.contents p ≡ (
                if text_eq path p
                then entry_at files'.contents path
                else if text_eq (temp_path path) p
                then none
                else entry_at files.contents p))
  unfolding save_wallet_v2 wallet_exists
  load_wallet-save_wallet_v2 nonce wallet path password files (free, temp_free) twelve text intact =
      let key = derive_key_for_storage password in
      let c = sealed key nonce (encode wallet) in
      let after = with_file nonce key wallet path files in
      let stored : entry_at after.contents path ≡ some (wallet_magic ++ (nonce ++ c)) =
        entry_at-with_file nonce key wallet path files path ∙ rw (text_eq_refl path) in
      (
        after,
        save_with_key_ok nonce key wallet path files (free, temp_free),
        load_wallet_opened path password nonce c wallet after free stored twelve
            (decrypt_ok key nonce (encode wallet)) text intact,
        rw (wallet_exists, stored),
        λ p. rw stored (entry_at-with_file nonce key wallet path files p),
      )

  -- Under the same conditions on the path and the nonce, with a cipher that refuses to decrypt under
  -- the key without the address what the key with the address encrypted: a wallet that `save_wallet`
  -- saves successfully is not loaded again with the same password; loading fails as with a wrong one.
  pub load_wallet-save_wallet :
      ⦃schemes : Schemes⦄
      → ⦃h : Hasher⦄ → (nonce : Text) (wallet : KyveraWallet) (path password : Text) (files : Files)
      → Allowed path files
      → length nonce ≡ 12
      → cipher.decrypt
          (derive_key_for_storage password)
          nonce
          (sealed (derive_encryption_key password wallet.address) nonce (encode wallet))
        ≡ none
      → (files' : Files) × (save_wallet nonce wallet path password files ≡ (ok tt, files'))
        × (load_wallet path password files' ≡ (err decryption_failed, files'))
  unfolding save_wallet
  load_wallet-save_wallet nonce wallet path password files (free, temp_free) twelve closed =
      let key = derive_encryption_key password wallet.address in
      let c = sealed key nonce (encode wallet) in
      let after = with_file nonce key wallet path files in
      let stored : entry_at after.contents path ≡ some (wallet_magic ++ (nonce ++ c)) =
        entry_at-with_file nonce key wallet path files path ∙ rw (text_eq_refl path) in
      (
        after,
        save_with_key_ok nonce key wallet path files (free, temp_free),
        load_wallet_rejected path password nonce c after free stored twelve closed,
      )
