-- ===== src/Examples/Codecs.antt =====
-- The codecs of the records that the program stores, for the tests.
use kyvera_core.Prelude.{◌≡◌, ◌∙◌, refl, sym, ap, Option, none, some, [], Text}
use mathlib.Core.List.{append-nil}
use kyvera_core.Types.Transaction.{Transaction}
use kyvera_core.Types.Block.{BlockHeader, Block}
use kyvera_core.Chain.BlockProducer.{ChainTip}
use kyvera_core.Storage.Db.{Codec, Lossless}
use kyvera_core.Storage.StateTrie.{StateSnapshot}
use kyvera_core.Consensus.Staking.{PendingUnstake}
use kyvera_core.Crypto.Dilithium.{KyveraKeyPair}
use kyvera_core.Crypto.Kyber.{KyberKeyPair}
use kyvera_core.Crypto.Sphincs.{SphincsKeyPair}
use kyvera_core.Wallet.Keys.{KyveraWallet}
use kyvera_core.Examples.Serial.{
  number, by, both, many, text, flag, signed, optional, kind_code, kind_of, account, kind_code_ok,
  Serial,
}

abbrev pub header : Serial BlockHeader
header =
    by
      (λ x. (
        x.index,
        (
          x.timestamp,
          (
            x.previous_hash,
            (
              x.merkle_root,
              (x.nonce, (x.difficulty, (x.is_epoch_block, (x.epoch_index, x.state_root)))),
            ),
          ),
        ),
      ))
      (λ (a0, (a1, (a2, (a3, (a4, (a5, (a6, (a7, a8)))))))). record {
        index = a0;
        timestamp = a1;
        previous_hash = a2;
        merkle_root = a3;
        nonce = a4;
        difficulty = a5;
        is_epoch_block = a6;
        epoch_index = a7;
        state_root = a8;
      })
      (λ x. refl)
      (both number (
        both signed
          (both text (both text (both number (both number (both flag (both number text))))))))

abbrev pub block : Serial Block
block =
    by
      (λ x. (
        x.header,
        (
          x.transaction_hashes,
          (x.hash, (x.validator_signature, (x.producer_address, x.block_reward))),
        ),
      ))
      (λ (a0, (a1, (a2, (a3, (a4, a5))))). record {
        header = a0;
        transaction_hashes = a1;
        hash = a2;
        validator_signature = a3;
        producer_address = a4;
        block_reward = a5;
      })
      (λ x. refl) (both header (both (many text) (both text (both text (both text number)))))

abbrev pub tip : Serial ChainTip
tip =
    by (λ x. (x.hash, (x.height, (x.timestamp, (x.difficulty, (x.epoch_index, x.total_work))))))
      (λ (a0, (a1, (a2, (a3, (a4, a5))))). record {
        hash = a0;
        height = a1;
        timestamp = a2;
        difficulty = a3;
        epoch_index = a4;
        total_work = a5;
      })
      (λ x. refl) (both text (both number (both signed (both number (both number number)))))

abbrev pub transaction : Serial Transaction
transaction =
    by
      (λ x. (
        x.hash,
        (
          x.sender,
          (
            x.receiver,
            (
              x.amount,
              (x.fee, (x.nonce, (x.signature, (x.timestamp, (x.transaction_type, x.payload))))),
            ),
          ),
        ),
      ))
      (λ (a0, (a1, (a2, (a3, (a4, (a5, (a6, (a7, (a8, a9))))))))). record {
        hash = a0;
        sender = a1;
        receiver = a2;
        amount = a3;
        fee = a4;
        nonce = a5;
        signature = a6;
        timestamp = a7;
        transaction_type = a8;
        payload = a9;
      })
      (λ x. refl)
      (both text (
        both text (
          both text (
            both number (
              both number (
                both number (
                  both text
                    (both signed (both (by kind_code kind_of kind_code_ok number) text)))))))))

abbrev pub pending : Serial PendingUnstake
pending =
    by (λ x. (x.address, (x.amount, (x.request_epoch, x.unlock_epoch))))
      (λ (a0, (a1, (a2, a3))). record {
        address = a0;
        amount = a1;
        request_epoch = a2;
        unlock_epoch = a3;
      })
      (λ x. refl) (both text (both number (both number number)))

abbrev pub snapshot : Serial StateSnapshot
snapshot =
    by (λ x. (x.block_height, (x.state_root, x.modified_accounts)))
      (λ (a0, (a1, a2)). record { block_height = a0; state_root = a1; modified_accounts = a2 })
      (λ x. refl) (both number (both text (many (both text (optional account)))))

abbrev pub signing_keys : Serial KyveraKeyPair
signing_keys =
    by (λ x. (x.public_key, x.secret_key)) (λ (a0, a1). record { public_key = a0; secret_key = a1 })
      (λ x. refl) (both text text)

abbrev pub network_keys : Serial KyberKeyPair
network_keys =
    by (λ x. (x.public_key, x.secret_key)) (λ (a0, a1). record { public_key = a0; secret_key = a1 })
      (λ x. refl) (both text text)

abbrev pub epoch_keys : Serial SphincsKeyPair
epoch_keys =
    by (λ x. (x.public_key, x.secret_key)) (λ (a0, a1). record { public_key = a0; secret_key = a1 })
      (λ x. refl) (both text text)

abbrev pub wallet : Serial KyveraWallet
wallet =
    by
      (λ x. (
        x.address,
        (x.signing_keypair, (x.network_keypair, (x.epoch_keypair, (x.label, x.created_at)))),
      ))
      (λ (a0, (a1, (a2, (a3, (a4, a5))))). record {
        address = a0;
        signing_keypair = a1;
        network_keypair = a2;
        epoch_keypair = a3;
        label = a4;
        created_at = a5;
      })
      (λ x. refl)
      (both text (both signing_keys (both network_keys (both epoch_keys (both text signed)))))

-- The first value of a text.
abbrev pub first_of : {A : Type 0} → Option (A × Text) → Option A
first_of none = none
first_of (some (a, rest)) = some a

abbrev pub codec_of : {A : Type 0} → Serial A → Codec A
codec_of s = record { to_vec = λ a. some (s.write a); from_slice = λ x. first_of (s.read x) }

pub read-write_whole : {A : Type 0} (s : Serial A) (a : A) → s.read (s.write a) ≡ some (a, [])
read-write_whole s a = ap s.read (sym (append-nil (s.write a))) ∙ s.read-write a []

abbrev pub lossless_of : {A : Type 0} (s : Serial A) → Lossless (codec_of s)
lossless_of s = record {
  encode = s.write;
  to_vec_ok = λ a. refl;
  from_slice_ok = λ a. ap first_of (read-write_whole s a);
}

instance abbrev pub block_codec : Codec Block
block_codec = codec_of block

abbrev pub block_lossless : Lossless block_codec
block_lossless = lossless_of block

instance abbrev pub tip_codec : Codec ChainTip
tip_codec = codec_of tip

abbrev pub tip_lossless : Lossless tip_codec
tip_lossless = lossless_of tip

instance abbrev pub transaction_codec : Codec Transaction
transaction_codec = codec_of transaction

abbrev pub transaction_lossless : Lossless transaction_codec
transaction_lossless = lossless_of transaction

instance abbrev pub pending_codec : Codec PendingUnstake
pending_codec = codec_of pending

abbrev pub pending_lossless : Lossless pending_codec
pending_lossless = lossless_of pending

instance abbrev pub snapshot_codec : Codec StateSnapshot
snapshot_codec = codec_of snapshot

abbrev pub snapshot_lossless : Lossless snapshot_codec
snapshot_lossless = lossless_of snapshot

instance abbrev pub wallet_codec : Codec KyveraWallet
wallet_codec = codec_of wallet

abbrev pub wallet_lossless : Lossless wallet_codec
wallet_lossless = lossless_of wallet
