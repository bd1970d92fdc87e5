-- ===== src/Consensus/Staking/Unbonding.antt =====
-- What requests and releases do to the funds and to the waiting withdrawals.
use kyvera_core.Prelude.{
  ℕ, ◌+◌, ◌-◌, ◌≤◌, ◌<◌, ◌≡◌, refl, ap, ◌∙◌, inl, inr, true, false, Option, some, List, [], ◌∷◌,
  ◌++◌, map, Text, leb, ltb, arith, Bool-cases, ok,
}
use mathlib.Core.List.{append-nil, append_assoc}
use kyvera_core.Consensus.Coinbase.{saturating_add}
use kyvera_core.Types.Account.{Account, u64_mod, update_validator_tier}
use kyvera_core.Storage.Db.{Sled, Codec, KyveraDb, Works, Lossless, AllEntries, prefixed}
use kyvera_core.Storage.Store.Laws.{holder, credited, supply, contains, distinct, funds-le-supply}
use kyvera_core.Storage.AccountStore.{credit_account}
use kyvera_core.Storage.AccountStore.Outcomes.{credit_account_ok}
use kyvera_core.Storage.AccountStore.Database.{db_store}
use kyvera_core.Storage.AccountStore.Database.Lawful.{
  Decodes, account_at, saved, noted, db_store-Laws, get_account_ok, save_account_ok,
  set_metadata_ok, saved-Decodes,
}
use kyvera_core.Storage.StateTrie.Supply.{supply_credit}
use kyvera_core.Consensus.Staking.{
  PendingUnstake, pending_unstake_prefix, pending_key, new_pending, required, save_pending_unstake,
  request_unstake, release_matured,
}
use kyvera_core.Consensus.Staking.Entries.{
  amount_in, awaiting, matured, matured_now, matured_later, keys,
}

module _ ⦃sled : Sled⦄ ⦃accounts : Codec Account⦄ ⦃pendings : Codec PendingUnstake⦄
    (works : Works sled) (lossless : Lossless accounts) (encoded : Lossless pendings) where
  open works use {
    put, drop, entries, insert_ok, remove_ok, scan_ok, entry_at-entries, put_entry-entries,
    drop_entry-entries,
  }

  -- The waiting withdrawals of a database.
  abbrev pub waiting : KyveraDb sled → List (Text × Text)
  waiting db = prefixed pending_unstake_prefix (entries db.metadata)

  -- The database after `request_unstake` for an account.
  abbrev pub requested : Text → Account → ℕ → ℕ → KyveraDb sled → KyveraDb sled
  requested a x amount epoch db =
      noted works lossless (pending_key (new_pending a amount epoch))
        (encoded.encode (new_pending a amount epoch))
        (saved works lossless
          (update_validator_tier (record x { staked_balance = x.staked_balance - amount })) db)

  save_pending_unstake_ok :
      (p : PendingUnstake) (db : KyveraDb sled)
      → save_pending_unstake p db
        ≡ (ok tt, noted works lossless (pending_key p) (encoded.encode p) db)
  unfolding save_pending_unstake
  save_pending_unstake_ok p db =
      rw (encoded.to_vec_ok p, set_metadata_ok works lossless db (pending_key p) (encoded.encode p))

  pub request_unstake_ok :
      (db : KyveraDb sled) (a : Text) (amount epoch : ℕ) (x : Account)
      → Decodes works lossless db
      → account_at works lossless db a ≡ some x
      → amount ≤ x.staked_balance
      → request_unstake a amount epoch db
        ≡ (ok (new_pending a amount epoch), requested a x amount epoch db)
  unfolding request_unstake required
  request_unstake_ok db a amount epoch x wf found enough =
      let fits : leb amount x.staked_balance ≡ true = ground (arith, enough) in
      let less = update_validator_tier (record x { staked_balance = x.staked_balance - amount }) in
      rw (
        get_account_ok works lossless db a wf,
        found,
        fits,
        save_account_ok works lossless db less,
        save_pending_unstake_ok (new_pending a amount epoch) (saved works lossless less db),
      )

  -- An entry pays a listed address.
  abbrev pub Payable : List Text → Text × Text → Type 0
  Payable addresses (key, value) =
      (p : PendingUnstake) × (pendings.from_slice value ≡ some p)
      × (contains addresses p.address ≡ true)

  module _ (addresses : List Text) (once : distinct addresses ≡ true) where
    abbrev pub total_funds : KyveraDb sled → ℕ
    total_funds db = supply (db_store-Laws works lossless) addresses db

    -- A credit to a listed address that leaves the funds below 2^64.
    credit_matured :
        (db : KyveraDb sled) (a : Text) (amount : ℕ)
        → Decodes works lossless db
        → contains addresses a ≡ true
        → total_funds db + amount < u64_mod
        → (db' : KyveraDb sled) × (credit_account a amount db ≡ (ok tt, db'))
          × Decodes works lossless db'
          × (total_funds db' ≡ total_funds db + amount)
          × (db'.metadata ≡ db.metadata)
    unfolding db_store-Laws
    credit_matured db a amount wf listed room =
        let laws = db_store-Laws works lossless in
        let x = credited laws db a amount in
        let fits : ltb ((holder laws db a).balance + amount) u64_mod ≡ true =
          ground (arith, funds-le-supply laws addresses db a listed) in
        (
          saved works lossless x db,
          rw (credit_account_ok laws db wf a amount, fits),
          saved-Decodes works lossless db x wf,
          supply_credit laws addresses once db a amount wf listed,
          refl,
        )

    release_now :
        (epoch : ℕ) (k v : Text) (rest : List (Option (Text × Text))) (total : ℕ) (ks : List Text)
        (db db' : KyveraDb sled) (p : PendingUnstake)
        → pendings.from_slice v ≡ some p
        → leb p.unlock_epoch epoch ≡ true
        → credit_account p.address p.amount db ≡ (ok tt, db')
        → release_matured epoch (some (k, v) ∷ rest) total ks db
          ≡ release_matured epoch rest (saturating_add total p.amount) (ks ++ (k ∷ [])) db'
    unfolding release_matured
    release_now epoch k v rest total ks db db' p e now paid = rw (e, now, paid)

    release_later :
        (epoch : ℕ) (k v : Text) (rest : List (Option (Text × Text))) (total : ℕ) (ks : List Text)
        (db : KyveraDb sled) (p : PendingUnstake)
        → pendings.from_slice v ≡ some p
        → leb p.unlock_epoch epoch ≡ false
        → release_matured epoch (some (k, v) ∷ rest) total ks db
          ≡ release_matured epoch rest total ks db
    unfolding release_matured
    release_later epoch k v rest total ks db p e later = rw (e, later)

    -- What the loop has done, for the entries that were due.
    abbrev pub Released :
        ℕ
        → List (Option (Text × Text))
        → List (Text × Text)
        → ℕ
        → List Text
        → KyveraDb sled
        → Type 0
    Released epoch scan now total ks db =
        (db' : KyveraDb sled) × (release_matured epoch scan total ks db
          ≡ (ok (total + awaiting now, ks ++ keys now), db'))
        × (total_funds db' ≡ total_funds db + awaiting now)
        × (db'.metadata ≡ db.metadata)

    Released-now :
        (epoch : ℕ) (k v : Text) (rest : List (Option (Text × Text))) (now : List (Text × Text))
        (total : ℕ) (ks : List Text) (db db' : KyveraDb sled) (p : PendingUnstake)
        → release_matured epoch (some (k, v) ∷ rest) total ks db
          ≡ release_matured epoch rest (saturating_add total p.amount) (ks ++ (k ∷ [])) db'
        → amount_in v ≡ p.amount
        → total + p.amount < u64_mod
        → total_funds db' ≡ total_funds db + p.amount
        → db'.metadata ≡ db.metadata
        → Released epoch rest now (total + p.amount) (ks ++ (k ∷ [])) db'
        → Released epoch (some (k, v) ∷ rest) ((k, v) ∷ now) total ks db
    unfolding awaiting
    Released-now epoch k v rest now total ks db db' p step paid fits funds same (db₂, e, f, m) =
        let cap : saturating_add total p.amount ≡ total + p.amount = ground (arith, fits) in
        let sum : total + p.amount + awaiting now ≡ total + (amount_in v + awaiting now) =
          omega (arith, paid) in
        let shown : (total + p.amount + awaiting now, ks ++ (k ∷ []) ++ keys now)
            ≡ (total + (amount_in v + awaiting now), ks ++ (k ∷ keys now)) =
          λ i. (sum i, append_assoc ks (k ∷ []) (keys now) i) in
        (
          db₂,
          step ∙ rw cap (e ∙ ap (λ r. (ok r, db₂)) shown),
          omega (arith, funds, f, paid),
          m ∙ same,
        )

    pub release_matured_ok :
        (epoch : ℕ) (es : List (Text × Text)) (total : ℕ) (ks : List Text) (db : KyveraDb sled)
        → Decodes works lossless db
        → AllEntries (Payable addresses) es
        → total_funds db + awaiting (matured epoch es) < u64_mod
        → total + awaiting (matured epoch es) < u64_mod
        → Released epoch (map some es) (matured epoch es) total ks db
    release_matured_ok epoch [] total ks db wf all room fits = (
      db,
      (unfold release_matured matured awaiting in
          let z : total + 0 ≡ total = omega arith in rw (append-nil ks, z)),
      (unfold matured awaiting in omega arith),
      refl,
    )
    release_matured_ok epoch ((k, v) ∷ es) total ks db wf ((p, e, listed), all) room fits =
        elim (Bool-cases (leb p.unlock_epoch epoch)) [
          | inl now ↦
              let (split, paid) = matured_now epoch k v es p e now in
              let sum : awaiting (matured epoch ((k, v) ∷ es))
                  ≡ p.amount + awaiting (matured epoch es) =
                ap awaiting split ∙ (unfold awaiting in rw paid) in
              let (db₁, e₁, wf₁, p₁, m₁) =
                credit_matured db p.address p.amount wf listed (omega (arith, room, sum)) in
              rw split (
                Released-now epoch k v (map some es) (matured epoch es) total ks db db₁ p
                  (release_now epoch k v (map some es) total ks db db₁ p e now e₁) paid
                  (omega (arith, fits, sum)) p₁ m₁
                  (release_matured_ok epoch es (total + p.amount) (ks ++ (k ∷ [])) db₁ wf₁ all
                    (omega (arith, room, sum, p₁)) (omega (arith, fits, sum))))
          | inr later ↦
              let same = matured_later epoch k v es p e later in
              let (db₂, e₂, p₂, m₂) =
                release_matured_ok epoch es total ks db wf all (rw same at room)
                  (rw same at fits) in
              rw same
                (db₂, release_later epoch k v (map some es) total ks db p e later ∙ e₂, p₂, m₂)
        ]
