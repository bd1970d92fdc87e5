-- ===== src/Storage/SnapshotStack.antt =====
-- `save_snapshot` and `get_snapshot_count` of src/storage/state_trie.rs, over the database.
pub mod Slot
use kyvera_core.Prelude.{
  ℕ, ◌+◌, ◌*◌, ◌-◌, Bool, true, false, ◌&&◌, Option, none, some, List, [], ◌∷◌, ◌++◌, Text, Result,
  ok, err, codes, decimal, ◌==◌, ltb, leb, if◌then◌else◌,
}
use kyvera_core.Types.Account.{Account, u64_mod}
use kyvera_core.Storage.Exec.{
  Exec, Fault, continue, ◌>>=◌, ◌>>◌, pure, lift, serialize_failed, bad_count,
}
use kyvera_core.Storage.Db.{Sled, Codec, KyveraDb, or_fault}
use kyvera_core.Storage.AccountStore.Database.{get_metadata, set_metadata}
use kyvera_core.Storage.BlockStore.{from_utf8}
use kyvera_core.Storage.TxStore.{padded}
use kyvera_core.Storage.StateTrie.{StateSnapshot}

abbrev pub snapshot_count_key : Text
snapshot_count_key = codes "snapshot_count"

-- `format!("snapshot:{:020}", count)`.
unfoldable pub snapshot_key : ℕ → Text
snapshot_key count = codes "snapshot:" ++ padded count

-- `parse::<u64>()`: an optional plus sign, then at least one digit, below 2^64.
unfoldable pub parse_digits : Text → ℕ → Option ℕ
parse_digits [] n = some n
parse_digits (c ∷ s) n =
    let next = n * 10 + (c - b'0') in
    let rest = parse_digits s next in
    if leb b'0' c && (leb c b'9' && ltb next u64_mod) then rest else none

unfoldable pub parse_u64 : Text → Option ℕ
unfolding parse_digits
parse_u64 [] = none
parse_u64 (c ∷ []) = parse_digits (c ∷ []) 0
parse_u64 (c ∷ (d ∷ s)) = if c == b'+' then parse_digits (d ∷ s) 0 else parse_digits (c ∷ (d ∷ s)) 0

-- The count in the bytes found, if any.
unfoldable pub parse_count : Option Text → Result Fault ℕ
unfolding parse_u64 from_utf8
parse_count none = ok 0
parse_count (some bytes) = elim (from_utf8 bytes) [
  | err e ↦ err e
  | ok s ↦ or_fault (parse_u64 s) bad_count
]

module _ ⦃sled : Sled⦄ ⦃accounts : Codec Account⦄ where
  unfoldable pub get_snapshot_count : Exec (KyveraDb sled) ℕ
  unfolding parse_count
  get_snapshot_count = do found ← get_metadata snapshot_count_key; lift (parse_count found)

  unfoldable pub save_snapshot :
      ⦃codec : Codec StateSnapshot⦄ → StateSnapshot → Exec (KyveraDb sled) (Unit {0})
  unfolding get_snapshot_count snapshot_key
  save_snapshot ⦃codec⦄ snapshot = do
    serialized ← lift (or_fault (codec.to_vec snapshot) serialize_failed)
    count ← get_snapshot_count
    set_metadata (snapshot_key count) serialized
    set_metadata snapshot_count_key (decimal count)
