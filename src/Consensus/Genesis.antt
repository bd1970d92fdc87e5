-- ===== src/Consensus/Genesis.antt =====
-- src/consensus/genesis.rs: the genesis allocations. The treasury's address stands in
-- Storage/StateTrie.
pub mod Allocated
pub mod Startup
pub mod Initialized
pub mod Integrity
use kyvera_core.Prelude.{ℕ, ◌+◌, ◌%◌, Text, codes, ◌==◌, ok}
use kyvera_core.Types.Account.{u64_mod}
use kyvera_core.Storage.Exec.{Exec, ◌>>=◌, ◌>>◌, continue, require, allocation_mismatch}
use kyvera_core.Storage.Store.{Store}
use kyvera_core.Storage.AccountStore.{credit_account}
use kyvera_core.Storage.StateTrie.{treasury_address}

abbrev pub total_supply : ℕ
total_supply = 1_500_000_000_000_000_000

abbrev pub mining_allocation : ℕ
mining_allocation = 900_000_000_000_000_000

abbrev pub ecosystem_allocation : ℕ
ecosystem_allocation = 225_000_000_000_000_000

abbrev pub founder_allocation : ℕ
founder_allocation = 150_000_000_000_000_000

abbrev pub community_allocation : ℕ
community_allocation = 150_000_000_000_000_000

abbrev pub treasury_allocation : ℕ
treasury_allocation = 75_000_000_000_000_000

abbrev pub ecosystem_address : Text
ecosystem_address = codes "kyv10000000000000000000000000000000000000000000000000ecosystem00"

abbrev pub founder_address : Text
founder_address = codes "kyv10000000000000000000000000000000000000000000000000000founder00"

abbrev pub community_address : Text
community_address = codes "kyv100000000000000000000000000000000000000000000000000community00"

module _ {S : Type 0} ⦃store : Store S⦄ where
  unfoldable pub apply_genesis_allocations : Exec S (Unit {0})
  apply_genesis_allocations = do
    credit_account ecosystem_address ecosystem_allocation
    credit_account founder_address founder_allocation
    credit_account community_address community_allocation
    credit_account treasury_address treasury_allocation
    let expected =
        ecosystem_allocation + founder_allocation + community_allocation + treasury_allocation
    require ((expected + mining_allocation) % u64_mod == total_supply) allocation_mismatch
