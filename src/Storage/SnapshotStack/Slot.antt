-- ===== src/Storage/SnapshotStack/Slot.antt =====
-- Where a saved snapshot goes.
use kyvera_core.Prelude.{
  ◌≡◌, refl, ◌∙◌, false, Option, none, some, Text, ok, text_eq, text_eq_refl, decimal,
}
use kyvera_core.Types.Account.{Account}
use kyvera_core.Storage.Db.{Sled, Codec, KyveraDb, Works, Lossless}
use kyvera_core.Storage.AccountStore.Database.Lawful.{noted, get_metadata_ok, set_metadata_ok}
use kyvera_core.Storage.StateTrie.{StateSnapshot}
use kyvera_core.Prelude.{is_utf8}
use kyvera_core.Storage.BlockStore.{from_utf8}
use kyvera_core.Storage.TxStore.{padded}
use kyvera_core.Storage.SnapshotStack.{
  snapshot_count_key, snapshot_key, parse_u64, parse_count, get_snapshot_count, save_snapshot,
}

module _ ⦃sled : Sled⦄ ⦃accounts : Codec Account⦄ ⦃codec : Codec StateSnapshot⦄ (works : Works sled)
    (lossless : Lossless accounts) (encoded : Lossless codec) where
  open works use {find, put, find-put}
  open encoded use {encode, to_vec_ok}

  -- The database with a snapshot in a slot and the count as it was read.
  abbrev pub with_snapshot : StateSnapshot → Text → Text → KyveraDb sled → KyveraDb sled
  with_snapshot s slot count db =
      noted works lossless snapshot_count_key count (noted works lossless slot (encode s) db)

  -- The first slot is used when no count is stored or a zero.
  abbrev CountsZero : Option Text → Type 0
  CountsZero found = parse_count found ≡ ok 0

  save_snapshot_ok :
      (s : StateSnapshot) (db : KyveraDb sled)
      → CountsZero (find db.metadata snapshot_count_key)
      → save_snapshot s db ≡ (ok tt, with_snapshot s (snapshot_key 0) (decimal 0) db)
  unfolding save_snapshot get_snapshot_count
  save_snapshot_ok s db zero_count = rw (
    to_vec_ok s,
    get_metadata_ok works lossless db snapshot_count_key,
    zero_count,
    set_metadata_ok works lossless db (snapshot_key 0) (encode s),
    set_metadata_ok works lossless (noted works lossless (snapshot_key 0) (encode s) db)
        snapshot_count_key (decimal 0),
  )

  zero_decimal : CountsZero (some (decimal 0))
  unfolding parse_count parse_u64 decimal is_utf8 from_utf8
  zero_decimal = refl

  -- The metadata after a snapshot was written in slot 0.
  abbrev written : sled.Tree → Text → sled.Tree
  written t v = put (put t (snapshot_key 0) v) snapshot_count_key (decimal 0)

  apart : text_eq snapshot_count_key (snapshot_key 0) ≡ false
  unfolding text_eq snapshot_key padded
  apart = refl

  find_slot : (t : sled.Tree) (v : Text) → find (written t v) (snapshot_key 0) ≡ some v
  find_slot t v = rw (
    find-put (put t (snapshot_key 0) v) snapshot_count_key (decimal 0) (snapshot_key 0),
    apart,
    find-put t (snapshot_key 0) v (snapshot_key 0),
    text_eq_refl (snapshot_key 0),
  )

  find_count : (t : sled.Tree) (v : Text) → find (written t v) snapshot_count_key ≡ some (decimal 0)
  find_count t v = rw (
    find-put (put t (snapshot_key 0) v) snapshot_count_key (decimal 0) snapshot_count_key,
    text_eq_refl snapshot_count_key,
  )

  find_other :
      (t : sled.Tree) (v k : Text)
      → text_eq (snapshot_key 0) k ≡ false
      → text_eq snapshot_count_key k ≡ false
      → find (written t v) k ≡ find t k
  find_other t v k other other' = rw (
    find-put (put t (snapshot_key 0) v) snapshot_count_key (decimal 0) k,
    other',
    find-put t (snapshot_key 0) v k,
    other,
  )

  -- With a tree store that behaves as documented and a lossless serialisation, on a database without
  -- a snapshot count: saving one snapshot and then another succeeds, both go into slot 0, which then
  -- holds the second; a key other than that slot and the count has the value that it had at first.
  pub save_snapshot_twice :
      (s s' : StateSnapshot) (db : KyveraDb sled) (k : Text)
      → find db.metadata snapshot_count_key ≡ none
      → text_eq (snapshot_key 0) k ≡ false
      → text_eq snapshot_count_key k ≡ false
      → (db₁ : KyveraDb sled) × (db₂ : KyveraDb sled) × (save_snapshot s db ≡ (ok tt, db₁))
        × (save_snapshot s' db₁ ≡ (ok tt, db₂))
        × (find db₁.metadata (snapshot_key 0) ≡ some (encode s))
        × (find db₂.metadata (snapshot_key 0) ≡ some (encode s'))
        × (find db₂.metadata k ≡ find db.metadata k)
  save_snapshot_twice s s' db k fresh other other' =
      let one = with_snapshot s (snapshot_key 0) (decimal 0) db in
      (
        one,
        with_snapshot s' (snapshot_key 0) (decimal 0) one,
        save_snapshot_ok s db (rw fresh (unfold parse_count in refl)),
        save_snapshot_ok s' one (rw (find_count db.metadata (encode s)) zero_decimal),
        find_slot db.metadata (encode s),
        find_slot one.metadata (encode s'),
        find_other one.metadata (encode s') k other other'
            ∙ find_other db.metadata (encode s) k other other',
      )
