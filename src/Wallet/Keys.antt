-- ===== src/Wallet/Keys.antt =====
-- src/wallet/keys.rs: a wallet holds three key pairs and the address of the first.
use kyvera_core.Prelude.{ℕ, Bool, Text, text_eq}
use kyvera_core.Prelude.Int.{ℤ}
use kyvera_core.Types.Account as Account
use kyvera_core.Types.Account.{Account}
use kyvera_core.Chain.Hash.{Hasher}
use kyvera_core.Crypto.Schemes.{Schemes}
use kyvera_core.Crypto.Dilithium as Dilithium
use kyvera_core.Crypto.Dilithium.{KyveraKeyPair}
use kyvera_core.Crypto.Kyber as Kyber
use kyvera_core.Crypto.Kyber.{KyberKeyPair}
use kyvera_core.Crypto.Sphincs as Sphincs
use kyvera_core.Crypto.Sphincs.{SphincsKeyPair}

pub record KyveraWallet : Type 0 where
  pub address : Text
  pub signing_keypair : KyveraKeyPair
  pub network_keypair : KyberKeyPair
  pub epoch_keypair : SphincsKeyPair
  pub label : Text
  pub created_at : ℤ

pub record WalletInfo : Type 0 where
  pub address : Text
  pub label : Text
  pub created_at : ℤ
  pub signing_public_key : Text
  pub network_public_key : Text
  pub epoch_public_key : Text

unfoldable pub spendable_balance : KyveraWallet → Account → ℕ
spendable_balance wallet account = account.balance

unfoldable pub total_balance : KyveraWallet → Account → ℕ
unfolding Account.total_balance
total_balance wallet account = Account.total_balance account

module _ ⦃schemes : Schemes⦄ ⦃h : Hasher⦄ where
  -- The clock and three draws of randomness are arguments.
  unfoldable pub generate : ℤ → Text → Text → Text → Text → KyveraWallet
  unfolding Dilithium.generate Dilithium.address Kyber.generate Sphincs.generate
  generate now seed₁ seed₂ seed₃ label = record {
    address = Dilithium.address (Dilithium.generate seed₁);
    signing_keypair = Dilithium.generate seed₁;
    network_keypair = Kyber.generate seed₂;
    epoch_keypair = Sphincs.generate seed₃;
    label = label;
    created_at = now;
  }

  unfoldable pub info : KyveraWallet → WalletInfo
  unfolding Kyber.public_key_hex Sphincs.public_key_hex
  info wallet = record {
    address = wallet.address;
    label = wallet.label;
    created_at = wallet.created_at;
    signing_public_key = h.hex_encode wallet.signing_keypair.public_key;
    network_public_key = Kyber.public_key_hex wallet.network_keypair;
    epoch_public_key = Sphincs.public_key_hex wallet.epoch_keypair;
  }

  unfoldable pub public_key_hex : KyveraWallet → Text
  public_key_hex wallet = h.hex_encode wallet.signing_keypair.public_key

  unfoldable pub verify_address_integrity : KyveraWallet → Bool
  unfolding Dilithium.address
  verify_address_integrity wallet =
      text_eq (Dilithium.address wallet.signing_keypair) wallet.address
