-- ===== src/Consensus/Staking/Conserved.antt =====
-- The funds of the accounts together with the waiting withdrawals.
use kyvera_core.Prelude.{
  ℕ, ◌+◌, ◌<◌, ◌≡◌, refl, ap, ◌∙◌, true, some, List, [], ◌∷◌, map, Text, arith, ok,
}
use kyvera_core.Types.Account.{Account, u64_mod}
use kyvera_core.Storage.Db.{Sled, Codec, KyveraDb, Works, Lossless, AllEntries, prefixed}
use kyvera_core.Storage.Db.Ordered.{increasing}
use kyvera_core.Storage.Store.Laws.{distinct}
use kyvera_core.Storage.AccountStore.Database.{db_store}
use kyvera_core.Storage.AccountStore.Database.Funds.{supply_same_accounts}
use kyvera_core.Storage.AccountStore.Database.Lawful.{Decodes, db_store-Laws}
use kyvera_core.Consensus.Staking.{
  PendingUnstake, pending_unstake_prefix, release_matured, remove_entries, process_matured_unstakes,
}
use kyvera_core.Consensus.Staking.Entries.{
  awaiting, matured, unmatured, awaiting-matured, keys, drop_entries, prefixed-drop_entries-matured,
}
use kyvera_core.Consensus.Staking.Unbonding.{waiting, Payable, total_funds, release_matured_ok}

module _ ⦃sled : Sled⦄ ⦃accounts : Codec Account⦄ ⦃pendings : Codec PendingUnstake⦄
    (works : Works sled) (lossless : Lossless accounts) (encoded : Lossless pendings) where
  open works use {
    find, find-put, put, drop, entries, remove_ok, scan_ok, put_entry-entries, drop_entry-entries,
  }

  abbrev queue : KyveraDb sled → List (Text × Text)
  queue db = waiting works lossless encoded db

  abbrev drop_all : List Text → sled.Tree → sled.Tree
  drop_all [] t = t
  drop_all (k ∷ ks) t = drop_all ks (drop t k)

  remove_entries_ok :
      (ks : List Text) (db : KyveraDb sled)
      → remove_entries ks db ≡ (ok tt, record db { metadata = drop_all ks db.metadata })
  unfolding remove_entries
  remove_entries_ok [] db = refl
  remove_entries_ok (k ∷ ks) db =
      rw (remove_ok db.metadata k)
        (remove_entries_ok ks (record db { metadata = drop db.metadata k }))

  entries-drop_all :
      (ks : List Text) (t : sled.Tree) → entries (drop_all ks t) ≡ drop_entries ks (entries t)
  entries-drop_all [] t = refl
  entries-drop_all (k ∷ ks) t =
      entries-drop_all ks (drop t k) ∙ ap (drop_entries ks) (drop_entry-entries t k)

  waiting-drop_all :
      (epoch : ℕ) (db db' : KyveraDb sled)
      → increasing (entries db.metadata) ≡ true
      → db'.metadata ≡ db.metadata
      → queue (record db' { metadata = drop_all (keys (matured epoch (queue db))) db'.metadata })
        ≡ unmatured epoch (queue db)
  waiting-drop_all epoch db db' inc same =
      ap
        (λ t.
          prefixed pending_unstake_prefix (entries (drop_all (keys (matured epoch (queue db))) t)))
        same
      ∙ ap (prefixed pending_unstake_prefix)
          (entries-drop_all (keys (matured epoch (queue db))) db.metadata)
      ∙ prefixed-drop_entries-matured pending_unstake_prefix epoch (entries db.metadata) inc

  process_matured_unstakes_step :
      (epoch : ℕ) (db db' : KyveraDb sled) (total : ℕ) (ks : List Text)
      → release_matured epoch (map some (queue db)) 0 [] db ≡ (ok (total, ks), db')
      → process_matured_unstakes epoch db
        ≡ (ok total, record db' { metadata = drop_all ks db'.metadata })
  unfolding process_matured_unstakes
  process_matured_unstakes_step epoch db db' total ks e =
      rw (scan_ok db.metadata pending_unstake_prefix, e, remove_entries_ok ks db')

  module _ (addresses : List Text) (once : distinct addresses ≡ true) where
    abbrev funds_of : KyveraDb sled → ℕ
    funds_of db = total_funds works lossless encoded addresses once db

    -- With a tree store that behaves as documented and lossless serialisations, on a database whose
    -- account records decode, whose metadata keys increase, and whose waiting withdrawals all decode
    -- and pay listed addresses, where the listed funds and the withdrawals sum to less than 2^64:
    -- processing an epoch succeeds and returns the sum of the withdrawals whose unlock epoch is
    -- reached; exactly the others stay, in order; the listed funds and the waiting amounts together
    -- stay the same.
    pub process_matured_unstakes-supply :
        (db : KyveraDb sled) (epoch : ℕ)
        → Decodes works lossless db
        → increasing (entries db.metadata) ≡ true
        → AllEntries (Payable works lossless encoded addresses) (queue db)
        → funds_of db + awaiting (queue db) < u64_mod
        → (db' : KyveraDb sled) × (process_matured_unstakes epoch db
            ≡ (ok (awaiting (matured epoch (queue db))), db'))
          × (queue db' ≡ unmatured epoch (queue db))
          × (funds_of db' + awaiting (queue db') ≡ funds_of db + awaiting (queue db))
    process_matured_unstakes-supply db epoch wf inc all room =
        let laws = db_store-Laws works lossless in
        let parts = awaiting-matured epoch (queue db) in
        let (db₁, e, funds, same) =
          release_matured_ok works lossless encoded addresses once epoch (queue db) 0 [] db wf all
            (omega (arith, room, parts)) (omega (arith, room, parts)) in
        let zero : 0 + awaiting (matured epoch (queue db)) ≡ awaiting (matured epoch (queue db)) =
          omega arith in
        let kept = drop_all (keys (matured epoch (queue db))) db₁.metadata in
        let left = waiting-drop_all epoch db db₁ inc same in
        (
          record db₁ { metadata = drop_all (keys (matured epoch (queue db))) db₁.metadata },
          process_matured_unstakes_step epoch db db₁ (awaiting (matured epoch (queue db)))
              (keys (matured epoch (queue db)))
              (e ∙ ap (λ t. (ok (t, keys (matured epoch (queue db))), db₁)) zero),
          left,
          omega (
            arith,
            funds,
            parts,
            ap awaiting left,
            supply_same_accounts works lossless addresses db₁ (record db₁ { metadata = kept }) refl,
          ),
        )
