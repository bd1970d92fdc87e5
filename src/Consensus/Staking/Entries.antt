-- ===== src/Consensus/Staking/Entries.antt =====
-- Lists of entries in the order of their keys, and the amounts of the withdrawals among them.
use kyvera_core.Prelude.{
  ℕ, ◌+◌, ◌≡◌, refl, ap, ◌∙◌, inl, inr, Bool, true, false, Option, none, some, List, [], ◌∷◌, Text,
  text_eq, text_eq_iff, text_eq_sound, text_lt, text_lt_irrefl, starts_with, leb, if◌then◌else◌,
  arith, Bool-cases,
}
use kyvera_core.Storage.Db.{Codec, entry_at, put_entry, drop_entry, prefixed}
use kyvera_core.Storage.Db.Ordered.{
  above, increasing, entry_at-above, above_trans, drop_entry_head, prefixed-drop_entry,
  increasing-prefixed,
}
use kyvera_core.Storage.Store.Laws.{contains}
use kyvera_core.Consensus.Staking.{PendingUnstake}

module _ ⦃pendings : Codec PendingUnstake⦄ where
  -- The amount that a value stands for.
  unfoldable pub amount_in : Text → ℕ
  amount_in value = elim (pendings.from_slice value) [ none ↦ 0 | some pending ↦ pending.amount ]

  -- The amounts of all entries.
  unfoldable pub awaiting : List (Text × Text) → ℕ
  unfolding amount_in
  awaiting [] = 0
  awaiting ((key, value) ∷ rest) = amount_in value + awaiting rest

  unfoldable pub amount_found : Option Text → ℕ
  unfolding amount_in
  amount_found none = 0
  amount_found (some value) = amount_in value

  -- The amount under a key, if any.
  unfoldable pub amount_at : List (Text × Text) → Text → ℕ
  unfolding amount_found
  amount_at es k = amount_found (entry_at es k)

  awaiting-put_entry_above :
      (p k v : Text) (es : List (Text × Text))
      → above k es ≡ true
      → starts_with k p ≡ true
      → awaiting (prefixed p ((k, v) ∷ es)) + amount_at es k
        ≡ awaiting (prefixed p es) + amount_in v
  unfolding awaiting prefixed amount_at
  awaiting-put_entry_above p k v es a h =
      rw (entry_at-above k es a) (unfold amount_found in ground (arith, h))

  -- A write in an ordered list replaces what is under its key.
  pub awaiting-put_entry :
      (p k v : Text) (es : List (Text × Text))
      → increasing es ≡ true
      → starts_with k p ≡ true
      → awaiting (prefixed p (put_entry k v es)) + amount_at es k
        ≡ awaiting (prefixed p es) + amount_in v
  unfolding awaiting prefixed put_entry amount_at increasing amount_found entry_at
  awaiting-put_entry p k v [] inc h = rw h (omega arith)
  awaiting-put_entry p k v ((j, w) ∷ es) inc h = elim (Bool-cases (text_eq j k)) [
    | inl same ↦
        let pj : starts_with j p ≡ true = rw (text_eq_sound j k same) h in
        rw (same, h, pj) (omega arith)
    | inr other ↦ elim (Bool-cases (text_lt k j)) [
      | inl before ↦
          let higher : above k ((j, w) ∷ es) ≡ true =
            unfold above in ground (arith, before, above_trans k j es before) in
          let replaced = awaiting-put_entry_above p k v ((j, w) ∷ es) higher h in
          ground (arith, replaced)
      | inr after ↦ rw (other, after) (ground (arith, awaiting-put_entry p k v es))
    ]
  ]

  -- The withdrawals that are due at an epoch, and those that are not.
  unfoldable pub due : ℕ → Text → Bool
  due epoch value = elim (pendings.from_slice value) [
    | none ↦ false
    | some pending ↦ leb pending.unlock_epoch epoch
  ]

  unfoldable pub matured : ℕ → List (Text × Text) → List (Text × Text)
  matured epoch [] = []
  matured epoch ((key, value) ∷ rest) =
      let others = matured epoch rest in if due epoch value then (key, value) ∷ others else others

  unfoldable pub unmatured : ℕ → List (Text × Text) → List (Text × Text)
  unmatured epoch [] = []
  unmatured epoch ((key, value) ∷ rest) =
      let others = unmatured epoch rest in if due epoch value then others else (key, value) ∷ others

  pub matured_now :
      (epoch : ℕ) (k v : Text) (es : List (Text × Text)) (p : PendingUnstake)
      → pendings.from_slice v ≡ some p
      → leb p.unlock_epoch epoch ≡ true
      → (matured epoch ((k, v) ∷ es) ≡ (k, v) ∷ matured epoch es) × (amount_in v ≡ p.amount)
  unfolding matured due amount_in
  matured_now epoch k v es p e now = (rw (due, e, now), rw (amount_in, e))

  pub matured_later :
      (epoch : ℕ) (k v : Text) (es : List (Text × Text)) (p : PendingUnstake)
      → pendings.from_slice v ≡ some p
      → leb p.unlock_epoch epoch ≡ false
      → matured epoch ((k, v) ∷ es) ≡ matured epoch es
  unfolding matured due
  matured_later epoch k v es p e later = rw (due, e, later)

  pub awaiting-matured :
      (epoch : ℕ) (es : List (Text × Text))
      → awaiting (matured epoch es) + awaiting (unmatured epoch es) ≡ awaiting es
  unfolding awaiting matured unmatured
  awaiting-matured epoch [] = refl
  awaiting-matured epoch ((k, v) ∷ es) = ground (arith, awaiting-matured epoch es)

  abbrev pub keys : List (Text × Text) → List Text
  keys [] = []
  keys ((k, v) ∷ es) = k ∷ keys es

  abbrev pub drop_entries : List Text → List (Text × Text) → List (Text × Text)
  drop_entries [] es = es
  drop_entries (k ∷ ks) es = drop_entries ks (drop_entry k es)

  keys-matured_absent :
      (epoch : ℕ) (j : Text) (es : List (Text × Text))
      → above j es ≡ true
      → contains (keys (matured epoch es)) j ≡ false
  unfolding above matured contains
  keys-matured_absent epoch j [] a = refl
  keys-matured_absent epoch j ((k, v) ∷ es) a =
      ground (arith, text_lt_irrefl j, text_eq_iff k j, keys-matured_absent epoch j es)

  drop_entries-cons :
      (ks : List Text) (j w : Text) (es : List (Text × Text))
      → contains ks j ≡ false
      → drop_entries ks ((j, w) ∷ es) ≡ (j, w) ∷ drop_entries ks es
  unfolding contains drop_entry
  drop_entries-cons [] j w es out = refl
  drop_entries-cons (k ∷ ks) j w es out =
      ground (arith, text_eq_iff j k, text_eq_iff k j, drop_entries-cons ks j w (drop_entry k es))

  -- Dropping the keys that are due leaves the withdrawals that are not.
  drop_entries-matured :
      (epoch : ℕ) (es : List (Text × Text))
      → increasing es ≡ true
      → drop_entries (keys (matured epoch es)) es ≡ unmatured epoch es
  unfolding matured unmatured increasing
  drop_entries-matured epoch [] inc = refl
  drop_entries-matured epoch ((k, v) ∷ es) inc = elim (Bool-cases (due epoch v)) [
    | inl now ↦ rw now (
        ap (drop_entries (keys (matured epoch es))) (drop_entry_head k v es (ground arith))
        ∙ drop_entries-matured epoch es (ground arith))
    | inr later ↦ rw later (
        drop_entries-cons (keys (matured epoch es)) k v es
          (keys-matured_absent epoch k es (ground arith))
        ∙ ap (λ rest. (k, v) ∷ rest) (drop_entries-matured epoch es (ground arith)))
  ]

  prefixed-drop_entries :
      (p : Text) (ks : List Text) (es : List (Text × Text))
      → prefixed p (drop_entries ks es) ≡ drop_entries ks (prefixed p es)
  prefixed-drop_entries p [] es = refl
  prefixed-drop_entries p (k ∷ ks) es =
      prefixed-drop_entries p ks (drop_entry k es)
      ∙ ap (drop_entries ks) (prefixed-drop_entry p k es)

  -- Among the entries with a prefix too.
  pub prefixed-drop_entries-matured :
      (p : Text) (epoch : ℕ) (es : List (Text × Text))
      → increasing es ≡ true
      → prefixed p (drop_entries (keys (matured epoch (prefixed p es))) es)
        ≡ unmatured epoch (prefixed p es)
  prefixed-drop_entries-matured p epoch es inc =
      prefixed-drop_entries p (keys (matured epoch (prefixed p es))) es
      ∙ drop_entries-matured epoch (prefixed p es) (increasing-prefixed p es inc)
