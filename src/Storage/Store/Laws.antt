-- ===== src/Storage/Store/Laws.antt =====
-- What the clients rely on: a store whose reads see its writes, and the holdings that it shows.
use kyvera_core.Prelude.{
  Bool-cases, Option-cases, text_eq_sound, text_eq_refl, inl, inr, refl, sym, ℕ, ◌+◌, ◌≤◌, ◌≡◌,
  Bool, true, false, not, ◌&&◌, ◌||◌, List, [], ◌∷◌, Option, none, some, arith, Text, text_eq,
  text_eq_iff, ok, if◌then◌else◌,
}
use kyvera_core.Types.Account.{Account, new}
use kyvera_core.Storage.Store.{Store, or_new}

-- `Wf` are the states whose records decode and lie under their own address. On those every call
-- succeeds, a read returns the last write, and accounts and metadata do not disturb one another.
pub record Laws {S : Type 0} (store : Store S) : Type 1 where
  pub Wf : S → Type 0
  pub account : S → Text → Option Account
  pub metadata : S → Text → Option Text
  pub listed : S → List Account
  pub saved : Account → S → S
  pub deleted : Text → S → S
  pub noted : Text → Text → S → S
  pub get_account_ok : (s : S) (a : Text) → Wf s → store.get_account a s ≡ (ok (account s a), s)
  pub save_account_ok : (s : S) (x : Account) → Wf s → store.save_account x s ≡ (ok tt, saved x s)
  pub delete_account_ok :
      (s : S) (a : Text) → Wf s → store.delete_account a s ≡ (ok tt, deleted a s)
  pub list_accounts_ok : (s : S) → Wf s → store.list_accounts s ≡ (ok (listed s), s)
  pub get_metadata_ok : (s : S) (k : Text) → Wf s → store.get_metadata k s ≡ (ok (metadata s k), s)
  pub set_metadata_ok :
      (s : S) (k v : Text) → Wf s → store.set_metadata k v s ≡ (ok tt, noted k v s)
  pub saved-Wf : (s : S) (x : Account) → Wf s → Wf (saved x s)
  pub deleted-Wf : (s : S) (a : Text) → Wf s → Wf (deleted a s)
  pub noted-Wf : (s : S) (k v : Text) → Wf s → Wf (noted k v s)
  pub account-saved :
      (s : S) (x : Account) (a : Text)
      → Wf s
      → account (saved x s) a ≡ (if text_eq x.address a then some x else account s a)
  pub account-deleted :
      (s : S) (b a : Text)
      → Wf s
      → account (deleted b s) a ≡ (if text_eq b a then none else account s a)
  pub account-noted : (s : S) (k v a : Text) → Wf s → account (noted k v s) a ≡ account s a
  pub metadata-saved :
      (s : S) (x : Account) (k : Text) → Wf s → metadata (saved x s) k ≡ metadata s k
  pub metadata-deleted : (s : S) (a k : Text) → Wf s → metadata (deleted a s) k ≡ metadata s k
  pub metadata-noted :
      (s : S) (j v k : Text)
      → Wf s
      → metadata (noted j v s) k ≡ (if text_eq j k then some v else metadata s k)
  pub account_keyed : (s : S) (a : Text) (x : Account) → Wf s → account s a ≡ some x → x.address ≡ a

-- What an account owns: spendable and staked.
abbrev pub funds : Account → ℕ
funds x = x.balance + x.staked_balance

unfoldable pub contains : List Text → Text → Bool
contains [] a = false
contains (x ∷ xs) a = text_eq x a || contains xs a

unfoldable pub distinct : List Text → Bool
distinct [] = true
distinct (x ∷ xs) = not (contains xs x) && distinct xs

module _ {S : Type 0} {store : Store S} (laws : Laws store) where
  open laws use {Wf, account, saved, account-saved}

  -- The account at an address, as `get_or_create_account` returns it.
  abbrev pub holder : S → Text → Account
  holder s a = or_new a (account s a)

  -- That account with a higher balance.
  abbrev pub credited : S → Text → ℕ → Account
  credited s a amount = record (holder s a) { balance = (holder s a).balance + amount }

  -- The funds of the listed addresses.
  unfoldable pub supply : List Text → S → ℕ
  supply [] s = 0
  supply (a ∷ rest) s = funds (holder s a) + supply rest s

  -- A write at an address that is not listed leaves the sum as it was.
  supply-saved_other :
      (addresses : List Text) (s : S) (x : Account)
      → Wf s
      → contains addresses x.address ≡ false
      → supply addresses (saved x s) ≡ supply addresses s
  unfolding supply contains
  supply-saved_other [] s x wf out = refl
  supply-saved_other (a ∷ rest) s x wf out = ground (
    arith,
    account-saved s x a wf,
    text_eq_iff a x.address,
    text_eq_iff x.address a,
    supply-saved_other rest s x wf,
  )

  supply-saved_head :
      (a : Text) (rest : List Text) (s : S) (x : Account)
      → Wf s
      → a ≡ x.address
      → contains rest a ≡ false
      → supply (a ∷ rest) (saved x s) + funds (holder s x.address) ≡ supply (a ∷ rest) s + funds x
  unfolding supply
  supply-saved_head a rest s x wf e fresh =
      let fresh' : contains rest x.address ≡ false = rw (sym e) fresh in
      rw (e, account-saved s x x.address wf, text_eq_refl x.address)
        (omega (arith, supply-saved_other rest s x wf fresh'))

  -- A write at a listed address changes the sum by the difference in that account's funds.
  pub supply-saved :
      (addresses : List Text) (s : S) (x : Account)
      → Wf s
      → distinct addresses ≡ true
      → contains addresses x.address ≡ true
      → supply addresses (saved x s) + funds (holder s x.address) ≡ supply addresses s + funds x
  unfolding supply contains distinct
  supply-saved [] s x wf once listed = cc
  supply-saved (a ∷ rest) s x wf once listed = elim (Bool-cases (text_eq a x.address)) [
    | inl same ↦ supply-saved_head a rest s x wf (text_eq_sound a x.address same) (ground arith)
    | inr other ↦ ground (
      arith,
      account-saved s x a wf,
      text_eq_iff a x.address,
      text_eq_iff x.address a,
      supply-saved rest s x wf,
    )
  ]

  -- A listed account owns at most the sum.
  pub funds-le-supply :
      (addresses : List Text) (s : S) (a : Text)
      → contains addresses a ≡ true
      → funds (holder s a) ≤ supply addresses s
  unfolding supply contains
  funds-le-supply [] s a listed = cc
  funds-le-supply (b ∷ rest) s a listed = elim (Bool-cases (text_eq b a)) [
    | inl same ↦ rw (sym (text_eq_sound b a same)) (omega arith)
    | inr other ↦ ground (arith, funds-le-supply rest s a)
  ]

  -- An account lies under its own address.
  pub holder-address : (s : S) (a : Text) → Wf s → (holder s a).address ≡ a
  unfolding new
  holder-address s a wf = elim (Option-cases (account s a)) [
    | inl e ↦ rw e
    | inr (x, e) ↦ rw e (laws.account_keyed s a x wf e)
  ]

  -- The account at an address after a write there or elsewhere.
  pub holder-saved :
      (s : S) (x : Account) (a : Text)
      → Wf s
      → holder (saved x s) a ≡ (if text_eq x.address a then x else holder s a)
  holder-saved s x a wf = elim (Bool-cases (text_eq x.address a)) [
    | inl same ↦ rw (account-saved s x a wf, same)
    | inr other ↦ rw (account-saved s x a wf, other)
  ]
