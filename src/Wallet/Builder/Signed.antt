-- ===== src/Wallet/Builder/Signed.antt =====
-- What the builders return for a generated wallet.
use kyvera_core.Prelude.{ℕ, ◌≡◌, refl, true, false, [], Text, ok, ◌==◌}
use kyvera_core.Prelude.Int.{ℤ}
use kyvera_core.Types.Transaction.{Transaction, transfer, new}
use kyvera_core.Chain.Hash.{Hasher}
use kyvera_core.Storage.Db.{Codec, Lossless}
use kyvera_core.Crypto.Schemes.{Schemes, Sound}
use kyvera_core.Crypto.Dilithium as Dilithium
use kyvera_core.Crypto.Dilithium.{KyveraSignature}
use kyvera_core.Crypto.Identity.{
  TransactionNonce, new_nonce, bind_message_to_nonce, verify_transaction_signature,
}
use kyvera_core.Crypto.Identity.Roundtrip.{sign-verify}
use kyvera_core.Wallet.Keys.{generate, public_key_hex}
use kyvera_core.Wallet.Builder.{
  Draw, validate_address, compute_transaction_hash, with_signature, sign_and_hash, build_transfer,
  or_not_serialized, or_signing_failed,
}

module _ ⦃schemes : Schemes⦄ ⦃h : Hasher⦄ ⦃codec : Codec Transaction⦄ (sound : Sound schemes h)
    (lossless : Lossless codec) where
  -- `tx` is `draft` with a signature that verifies for the draft's bytes and the nonce, and with the
  -- hash of the result.
  pub record SignedFrom (draft : Transaction) (nonce : TransactionNonce) (key : Text)
      (tx : Transaction) : Type 0 where
    pub same : tx ≡ record draft { hash = tx.hash; signature = tx.signature }
    pub hashed : tx.hash ≡ compute_transaction_hash tx
    pub verified :
        verify_transaction_signature (lossless.encode draft) nonce tx.signature key ≡ true

  sign_and_hash-SignedFrom :
      (draw : Draw) (now : ℤ) (seed₁ seed₂ seed₃ label : Text) (draft : Transaction)
      (account_nonce : ℕ) (chain_state_hash : Text)
      → (tx : Transaction) × (sign_and_hash draw
            (generate now seed₁ seed₂ seed₃ label)
            draft
            account_nonce
            chain_state_hash
          ≡ ok tx)
        × SignedFrom draft
            (new_nonce draw.nonce_now account_nonce chain_state_hash)
            (public_key_hex (generate now seed₁ seed₂ seed₃ label))
            tx
  unfolding sign_and_hash or_not_serialized or_signing_failed generate public_key_hex
      verify_transaction_signature Dilithium.public_key_hex
  sign_and_hash-SignedFrom draw now seed₁ seed₂ seed₃ label draft account_nonce chain_state_hash =
      let nonce = new_nonce draw.nonce_now account_nonce chain_state_hash in
      let (s, signed, read, verified) =
        sign-verify sound seed₁ draw.coins (bind_message_to_nonce (lossless.encode draft) nonce) in
      (
        with_signature draft s,
        rw (lossless.to_vec_ok draft, signed),
        record {
          same = refl;
          hashed = (unfold compute_transaction_hash with_signature in refl);
          verified = rw (verify_transaction_signature, read) verified;
        },
      )

  -- With schemes that behave as documented and a lossless serialisation, for a generated wallet, an
  -- amount that is not zero and a valid recipient: building a transfer succeeds; the transaction is
  -- the unsigned one with a signature and a hash filled in; the hash is that of the result; and the
  -- signature verifies under the wallet's public key for the bytes of the unsigned transaction and
  -- the nonce with the second reading of the clock.
  pub build_transfer-SignedFrom :
      (draw : Draw) (now : ℤ) (seed₁ seed₂ seed₃ label recipient : Text)
      (amount fee account_nonce : ℕ) (chain_state_hash : Text)
      → (amount == 0) ≡ false
      → validate_address recipient ≡ true
      → (tx : Transaction) × (build_transfer draw
            (generate now seed₁ seed₂ seed₃ label)
            recipient
            amount
            fee
            account_nonce
            chain_state_hash
          ≡ ok tx)
        × SignedFrom
            (new draw.now
              (generate now seed₁ seed₂ seed₃ label).address
              recipient
              amount
              fee
              account_nonce
              transfer
              [])
            (new_nonce draw.nonce_now account_nonce chain_state_hash)
            (public_key_hex (generate now seed₁ seed₂ seed₃ label))
            tx
  unfolding build_transfer
  build_transfer-SignedFrom draw now seed₁ seed₂ seed₃ label recipient amount fee account_nonce
        chain_state_hash positive valid =
      let (tx, built, signed) =
        sign_and_hash-SignedFrom draw now seed₁ seed₂ seed₃ label
          (new draw.now (generate now seed₁ seed₂ seed₃ label).address recipient amount fee
            account_nonce transfer [])
          account_nonce chain_state_hash in
      (tx, rw (positive, valid) built, signed)
