-- ===== src/Storage/StateTrie/Rollback.antt =====
-- Snapshots: `take_snapshot` against `rollback_to_snapshot`.
use kyvera_core.Prelude.{
  ◌≡◌, refl, ap, ◌∙◌, true, List, [], ◌∷◌, Option, none, some, arith, Text, codes, text_eq,
  text_eq_iff, text_eq_refl, is_utf8, ok, if◌then◌else◌, ℕ, Bool,
}
use kyvera_core.Types.Account.{Account}
use kyvera_core.Chain.Hash.{Hasher, sha3_256_hex}
use kyvera_core.Storage.Store.{Store}
use kyvera_core.Storage.Store.Laws.{Laws, contains}
use kyvera_core.Storage.StateTrie.{
  StateSnapshot, state_root_key, checked_text, read_accounts, take_snapshot, restore_accounts,
  rollback_to_snapshot,
}

module _ {S : Type 0} ⦃store : Store S⦄ (laws : Laws store) where
  open laws use {
    Wf, account, metadata, saved, deleted, noted, get_account_ok, save_account_ok,
    delete_account_ok, get_metadata_ok, set_metadata_ok, saved-Wf, deleted-Wf, noted-Wf,
    account-saved, account-deleted, account-noted, metadata-noted, account_keyed,
  }

  -- The accounts at the addresses, as `take_snapshot` records them.
  unfoldable pub entries : S → List Text → List (Text × Option Account)
  entries s [] = []
  entries s (a ∷ rest) = (a, account s a) ∷ entries s rest

  read_accounts_ok :
      (addresses : List Text) (s : S)
      → Wf s
      → read_accounts addresses s ≡ (ok (entries s addresses), s)
  unfolding read_accounts entries
  read_accounts_ok [] s wf = refl
  read_accounts_ok (a ∷ rest) s wf = rw (get_account_ok s a wf) (rw (read_accounts_ok rest s wf))

  -- One account put back as it was.
  abbrev put_back : Text → Option Account → S → S
  put_back a (some x) s = saved x s
  put_back a none s = deleted a s

  restored : List (Text × Option Account) → S → S
  restored [] s = s
  restored ((a, o) ∷ rest) s = restored rest (put_back a o s)

  put_back-Wf : (a : Text) (o : Option Account) (s : S) → Wf s → Wf (put_back a o s)
  put_back-Wf a none s wf = deleted-Wf s a wf
  put_back-Wf a (some x) s wf = saved-Wf s x wf

  account-put_back :
      (a : Text) (o : Option Account) (s : S) (b : Text)
      → Wf s
      → ((x : Account) → o ≡ some x → x.address ≡ a)
      → account (put_back a o s) b ≡ (if text_eq a b then o else account s b)
  account-put_back a none s b wf keyed = account-deleted s a b wf
  account-put_back a (some x) s b wf keyed =
      account-saved s x b wf ∙ ap (λ t. if text_eq t b then some x else account s b) (keyed x refl)

  restore_accounts_ok :
      (modified : List (Text × Option Account)) (s : S)
      → Wf s
      → restore_accounts modified s ≡ (ok tt, restored modified s)
  unfolding restore_accounts restored
  restore_accounts_ok [] s wf = refl
  restore_accounts_ok ((a, some x) ∷ rest) s wf =
      rw (save_account_ok s x wf) (restore_accounts_ok rest (saved x s) (saved-Wf s x wf))
  restore_accounts_ok ((a, none) ∷ rest) s wf =
      rw (delete_account_ok s a wf) (restore_accounts_ok rest (deleted a s) (deleted-Wf s a wf))

  restored-Wf : (modified : List (Text × Option Account)) (s : S) → Wf s → Wf (restored modified s)
  unfolding restored
  restored-Wf [] s wf = wf
  restored-Wf ((a, o) ∷ rest) s wf = restored-Wf rest (put_back a o s) (put_back-Wf a o s wf)

  -- Restoring the entries of `s` over `t` gives the accounts of `s` at the listed addresses.
  account-restored :
      (addresses : List Text) (s t : S) (b : Text)
      → Wf s
      → Wf t
      → account (restored (entries s addresses) t) b
        ≡ (if contains addresses b then account s b else account t b)
  unfolding restored entries contains
  account-restored [] s t b ws wt = refl
  account-restored (a ∷ rest) s t b ws wt = ground (
    arith,
    account-restored rest s (put_back a (account s a) t) b ws (put_back-Wf a (account s a) t wt),
    account-put_back a (account s a) t b wt
        (λ (x : Account) (e : account s a ≡ some x). account_keyed s a x ws e),
    text_eq_iff a b,
  )

  module _ ⦃h : Hasher⦄ where
    -- The root that a snapshot records: the stored one, or that of the empty state.
    unfoldable pub root_of : Option Text → Text
    root_of none = sha3_256_hex (codes "kyvera-empty-state")
    root_of (some r) = r

    unfoldable pub snapshot_of : ℕ → List Text → S → StateSnapshot
    snapshot_of height addresses s = record {
      block_height = height;
      state_root = root_of (metadata s state_root_key);
      modified_accounts = entries s addresses;
    }

    abbrev pub readable : Option Text → Bool
    readable none = true
    readable (some bytes) = is_utf8 bytes

    checked_text_ok :
        (found : Option Text) (s : S) → readable found ≡ true → checked_text found s ≡ (ok found, s)
    unfolding checked_text
    checked_text_ok none s utf8 = refl
    checked_text_ok (some bytes) s utf8 = rw utf8

    root_of_lem :
        (found : Option Text)
        → elim found [ none ↦ sha3_256_hex (codes "kyvera-empty-state") | some r ↦ r ]
          ≡ root_of found
    unfolding root_of
    root_of_lem none = refl
    root_of_lem (some r) = refl

    -- What `take_snapshot` returns: the stored root and the accounts, with the store unchanged.
    pub take_snapshot_ok :
        (height : ℕ) (addresses : List Text) (s : S)
        → Wf s
        → readable (metadata s state_root_key) ≡ true
        → take_snapshot height addresses s ≡ (ok (snapshot_of height addresses s), s)
    unfolding take_snapshot snapshot_of
    take_snapshot_ok height addresses s wf utf8 = rw (get_metadata_ok s state_root_key wf) (
        rw (checked_text_ok (metadata s state_root_key) s utf8)
          (rw (read_accounts_ok addresses s wf) (rw (root_of_lem (metadata s state_root_key)))))

    -- A snapshot taken in a lawful state of the store whose stored state root, if there is one, is
    -- UTF-8, and rolled back to later, in any lawful state of the store: both calls succeed, every address that the snapshot covers has its account (or none)
    -- as when the snapshot was taken, every other address has the account it had before the
    -- rollback, and the recorded state root is stored again.
    pub rollback-take_snapshot :
        (height : ℕ) (addresses : List Text) (s t : S)
        → Wf s
        → Wf t
        → readable (metadata s state_root_key) ≡ true
        → (snapshot : StateSnapshot) × (take_snapshot height addresses s ≡ (ok snapshot, s))
          × (t' : S) × (rollback_to_snapshot snapshot t ≡ (ok tt, t'))
          × ((b : Text)
              → account t' b ≡ (if contains addresses b then account s b else account t b))
          × (metadata t' state_root_key ≡ some (root_of (metadata s state_root_key)))
    unfolding rollback_to_snapshot
    rollback-take_snapshot height addresses s t ws wt utf8 =
        let r : S = restored (entries s addresses) t in
        let wr : Wf r = restored-Wf (entries s addresses) t wt in
        let root : Text = root_of (metadata s state_root_key) in
        (
          snapshot_of height addresses s,
          take_snapshot_ok height addresses s ws utf8,
          noted state_root_key root r,
          unfold snapshot_of in
              rw (restore_accounts_ok (entries s addresses) t wt)
                (set_metadata_ok r state_root_key root wr),
          λ b. account-noted r state_root_key root b wr ∙ account-restored addresses s t b ws wt,
          metadata-noted r state_root_key root state_root_key wr ∙ rw (text_eq_refl state_root_key),
        )
