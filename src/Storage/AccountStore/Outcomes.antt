-- ===== src/Storage/AccountStore/Outcomes.antt =====
-- What a call on one account does to a lawful store, on every branch.
use kyvera_core.Prelude.{ℕ, ◌+◌, ◌≡◌, arith, Text, ok, err, ltb, if◌then◌else◌}
use kyvera_core.Types.Account.{u64_mod}
use kyvera_core.Storage.Exec.{balance_overflow}
use kyvera_core.Storage.Store.{Store}
use kyvera_core.Storage.Store.Laws.{Laws, holder, credited}
use kyvera_core.Storage.AccountStore.{get_or_create_account, credit_account}

module _ {S : Type 0} ⦃store : Store S⦄ (laws : Laws store) (s : S) (wf : laws.Wf s) where
  open laws use {saved, get_account_ok, save_account_ok}

  pub get_or_create_account_ok :
      (address : Text) → get_or_create_account address s ≡ (ok (holder laws s address), s)
  unfolding get_or_create_account
  get_or_create_account_ok address = rw (get_account_ok s address wf)

  pub credit_account_ok :
      (address : Text) (amount : ℕ)
      → credit_account address amount s ≡ (
          if ltb ((holder laws s address).balance + amount) u64_mod
          then (ok tt, saved (credited laws s address amount) s)
          else (err balance_overflow, s))
  unfolding credit_account
  credit_account_ok address amount =
      rw (get_account_ok s address wf)
        (ground (arith, save_account_ok s (credited laws s address amount) wf))
