-- ===== src/Examples/Allocation.antt =====
-- The genesis allocations on the small database.
use kyvera_core.Prelude.{◌+◌, ◌≡◌, ◌<◌, ◌^◌, refl, List, [], ◌∷◌, Text, ok, arith, text_eq}
use kyvera_core.Types.Account.{new}
use kyvera_core.Storage.Store.Laws.{supply, distinct, contains}
use kyvera_core.Storage.AccountStore.Database.{db_store}
use kyvera_core.Storage.AccountStore.Database.Lawful.{db_store-Laws, account_at}
use kyvera_core.Storage.StateTrie.{treasury_address}
use kyvera_core.Consensus.Genesis.{
  apply_genesis_allocations, ecosystem_address, founder_address, community_address,
  mining_allocation, total_supply,
}
use kyvera_core.Consensus.Genesis.Allocated.{apply_genesis_allocations-supply}
use kyvera_core.Examples.ToyDb.{Db, toy_sled, toy_codec}
use kyvera_core.Storage.Db.{entry_at, put_entry, drop_entry}
use kyvera_core.Prelude.{text_lt}
use kyvera_core.Examples.Ledger.{toy_laws, alice, one_account, one_account-Wf}

abbrev funds : List Text
funds = ecosystem_address ∷ founder_address ∷ community_address ∷ treasury_address ∷ alice ∷ []

funds_small : supply toy_laws funds one_account < 2 ^ 63
unfolding supply db_store-Laws account_at entry_at put_entry drop_entry text_lt text_eq new
funds_small = omega arith

apply_genesis_allocations-supply_example :
    (after : Db) × (apply_genesis_allocations one_account ≡ (ok tt, after))
    × (supply toy_laws funds after + mining_allocation
        ≡ supply toy_laws funds one_account + total_supply)
apply_genesis_allocations-supply_example =
    apply_genesis_allocations-supply toy_laws funds (unfold distinct contains text_eq in refl)
      one_account one_account-Wf (unfold contains text_eq in refl) (unfold contains text_eq in refl)
      (unfold contains text_eq in refl) (unfold contains text_eq in refl) funds_small
