-- ===== src/Consensus/Staking/Requests.antt =====
-- What a request does to the waiting withdrawals and to the funds.
use native.Mathlib.Nat.{mod-eq_of_lt}
use kyvera_core.Prelude.{
  ℕ, ◌+◌, ◌-◌, ◌≤◌, ◌<◌, ◌≡◌, refl, sym, ap, ◌∙◌, inl, inr, Bool-cases, true, false, some, text_eq,
  text_eq_sound, text_eq_refl, List, Text, starts_with, arith, ok,
}
use kyvera_core.Types.Account.{Account, u64_mod, update_validator_tier}
use kyvera_core.Storage.Db.{Sled, Codec, KyveraDb, Works, Lossless, prefixed}
use kyvera_core.Storage.Db.Ordered.{increasing}
use kyvera_core.Storage.Store.Laws.{holder, contains, distinct}
use kyvera_core.Storage.AccountStore.Database.{db_store}
use kyvera_core.Storage.AccountStore.Database.Funds.{supply_same_accounts}
use kyvera_core.Storage.AccountStore.Database.Lawful.{Decodes, account_at, saved, db_store-Laws}
use kyvera_core.Storage.StateTrie.Supply.{supply_write}
use kyvera_core.Consensus.Staking.{
  PendingUnstake, pending_unstake_prefix, pending_key, new_pending, request_unstake,
}
use kyvera_core.Consensus.Staking.Keys.{pending_key_inj}
use kyvera_core.Consensus.Staking.Entries.{amount_in, awaiting, amount_at, awaiting-put_entry}
use kyvera_core.Consensus.Staking.Unbonding.{waiting, request_unstake_ok, total_funds}

-- The withdrawal that a request creates, due ten epochs later.
unfoldable pub due_later : Text → ℕ → ℕ → PendingUnstake
due_later a amount epoch = record {
  address = a;
  amount = amount;
  request_epoch = epoch;
  unlock_epoch = epoch + 10;
}

new_pending-due_later :
    (a : Text) (amount epoch : ℕ)
    → epoch + 10 < u64_mod
    → new_pending a amount epoch ≡ due_later a amount epoch
unfolding new_pending due_later
new_pending-due_later a amount epoch early = rw (mod-eq_of_lt early)

keys_apart :
    (a : Text) (amount epoch : ℕ) (q : PendingUnstake)
    → epoch + 10 < u64_mod
    → q.unlock_epoch < u64_mod
    → q.request_epoch < u64_mod
    → ¬ ((q.address ≡ a) × (q.request_epoch ≡ epoch))
    → text_eq (pending_key (due_later a amount epoch)) (pending_key q) ≡ false
unfolding due_later
keys_apart a amount epoch q early qu qr other =
    let p = due_later a amount epoch in
    elim (Bool-cases (text_eq (pending_key p) (pending_key q))) [
      | inl same ↦
          (let (addresses, epochs) =
              pending_key_inj p q early qu (omega arith) qr
                (text_eq_sound (pending_key p) (pending_key q) same) in
            absurd (other (sym addresses, sym epochs)))
      | inr apart ↦ apart
    ]

module _ ⦃sled : Sled⦄ ⦃accounts : Codec Account⦄ ⦃pendings : Codec PendingUnstake⦄
    (works : Works sled) (lossless : Lossless accounts) (encoded : Lossless pendings) where
  open works use {
    find, find-put, put, drop, entries, remove_ok, scan_ok, put_entry-entries, drop_entry-entries,
  }

  abbrev queue : KyveraDb sled → List (Text × Text)
  queue db = waiting works lossless encoded db

  queued :
      (db : KyveraDb sled) (p : PendingUnstake)
      → increasing (entries db.metadata) ≡ true
      → awaiting (
            prefixed pending_unstake_prefix
              (entries (put db.metadata (pending_key p) (encoded.encode p))))
          + amount_at (entries db.metadata) (pending_key p)
        ≡ awaiting (queue db) + p.amount
  unfolding amount_in
  queued db p inc =
      let starts : starts_with (pending_key p) pending_unstake_prefix ≡ true =
        (unfold starts_with pending_key in refl) in
      let amount : amount_in (encoded.encode p) ≡ p.amount =
        rw (amount_in, encoded.from_slice_ok p) in
      rw (put_entry-entries db.metadata (pending_key p) (encoded.encode p)) (
        awaiting-put_entry pending_unstake_prefix (pending_key p) (encoded.encode p)
          (entries db.metadata) inc starts
        ∙ rw amount)

  module _ (addresses : List Text) (once : distinct addresses ≡ true) where
    abbrev funds_of : KyveraDb sled → ℕ
    funds_of db = total_funds works lossless encoded addresses once db

    unstaked_funds :
        (db : KyveraDb sled) (a : Text) (amount : ℕ) (x : Account)
        → Decodes works lossless db
        → contains addresses a ≡ true
        → account_at works lossless db a ≡ some x
        → amount ≤ x.staked_balance
        → funds_of (
              saved works lossless
                (update_validator_tier (record x { staked_balance = x.staked_balance - amount }))
                db)
            + amount
          ≡ funds_of db
    unfolding db_store-Laws update_validator_tier
    unstaked_funds db a amount x wf listed found enough =
        let laws = db_store-Laws works lossless in
        let less =
          update_validator_tier (record x { staked_balance = x.staked_balance - amount }) in
        let is_x : holder laws db a ≡ x = rw found in
        let same : less.address ≡ (holder laws db a).address = rw found in
        omega (
          arith,
          enough,
          supply_write laws addresses once db a less wf listed same,
          ap (λ y. Account.balance y) is_x,
          ap (λ y. Account.staked_balance y) is_x,
        )

    -- With a tree store that behaves as documented and lossless serialisations, on a database whose
    -- account records decode and whose metadata keys increase, in an epoch below 2^64 - 10: a request
    -- by a listed address for at most its stake succeeds; a withdrawal of the amount for the address,
    -- due ten epochs later, then waits under its key; the withdrawals of other addresses, and those
    -- that the address requested in other epochs, stay under their keys; the funds and the waiting
    -- amounts together lose exactly the amount that already waited under the new key, so that of an
    -- earlier request of the address in the same epoch, or nothing.
    pub request_unstake-effect :
        (db : KyveraDb sled) (a : Text) (amount epoch : ℕ) (x : Account) (q : PendingUnstake)
        → Decodes works lossless db
        → increasing (entries db.metadata) ≡ true
        → contains addresses a ≡ true
        → account_at works lossless db a ≡ some x
        → amount ≤ x.staked_balance
        → epoch + 10 < u64_mod
        → q.unlock_epoch < u64_mod
        → q.request_epoch < u64_mod
        → ¬ ((q.address ≡ a) × (q.request_epoch ≡ epoch))
        → (db' : KyveraDb sled) × (request_unstake a amount epoch db
            ≡ (ok (due_later a amount epoch), db'))
          × (find db'.metadata (pending_key (due_later a amount epoch))
              ≡ some (encoded.encode (due_later a amount epoch)))
          × (find db'.metadata (pending_key q) ≡ find db.metadata (pending_key q))
          × (funds_of db'
                + awaiting (queue db')
                + amount_at (entries db.metadata) (pending_key (due_later a amount epoch))
              ≡ funds_of db + awaiting (queue db))
    unfolding due_later
    request_unstake-effect db a amount epoch x q wf inc listed found enough early qu qr other =
        let p = due_later a amount epoch in
        let same : new_pending a amount epoch ≡ p = new_pending-due_later a amount epoch early in
        let less =
          update_validator_tier (record x { staked_balance = x.staked_balance - amount }) in
        let after : KyveraDb sled = record (saved works lossless less db) {
          metadata = put db.metadata (pending_key p) (encoded.encode p);
        } in
        (
          after,
          rw same at
              (request_unstake_ok works lossless encoded db a amount epoch x wf found enough),
          find-put db.metadata (pending_key p) (encoded.encode p) (pending_key p)
              ∙ rw (text_eq_refl (pending_key p)),
          find-put db.metadata (pending_key p) (encoded.encode p) (pending_key q)
              ∙ rw (keys_apart a amount epoch q early qu qr other),
          omega (
            arith,
            unstaked_funds db a amount x wf listed found enough,
            supply_same_accounts works lossless addresses (saved works lossless less db) after refl,
            queued db p inc,
          ),
        )
