-- ===== src/Consensus/Genesis/Allocated.antt =====
-- `apply_genesis_allocations` and the sum of all funds.
use kyvera_core.Prelude.{ℕ, ◌+◌, ◌<◌, ◌^◌, ◌≡◌, true, List, arith, Text, ok, ltb}
use kyvera_core.Types.Account.{u64_mod}
use kyvera_core.Storage.Store.{Store}
use kyvera_core.Storage.Store.Laws.{
  Laws, holder, credited, supply, contains, distinct, funds-le-supply,
}
use kyvera_core.Storage.AccountStore.{credit_account}
use kyvera_core.Storage.AccountStore.Outcomes.{credit_account_ok}
use kyvera_core.Storage.StateTrie.{treasury_address}
use kyvera_core.Storage.StateTrie.Supply.{supply_credit}
use kyvera_core.Consensus.Genesis.{
  total_supply, mining_allocation, ecosystem_allocation, founder_allocation, community_allocation,
  treasury_allocation, ecosystem_address, founder_address, community_address,
  apply_genesis_allocations,
}

module _ {S : Type 0} ⦃store : Store S⦄ (laws : Laws store) (addresses : List Text)
    (once : distinct addresses ≡ true) where
  open laws use {Wf, saved, saved-Wf}

  -- A credit that leaves the listed funds below 2^64 succeeds.
  credit_room :
      (s : S) (a : Text) (amount : ℕ)
      → Wf s
      → contains addresses a ≡ true
      → supply laws addresses s + amount < u64_mod
      → (s' : S) × (credit_account a amount s ≡ (ok tt, s'))
        × Wf s'
        × (supply laws addresses s' ≡ supply laws addresses s + amount)
  credit_room s a amount wf listed room =
      let fits : ltb ((holder laws s a).balance + amount) u64_mod ≡ true =
        ground (arith, funds-le-supply laws addresses s a listed) in
      (
        saved (credited laws s a amount) s,
        rw (credit_account_ok laws s wf a amount, fits),
        saved-Wf s (credited laws s a amount) wf,
        supply_credit laws addresses once s a amount wf listed,
      )

  -- On a lawful store, for a list of distinct addresses with the four funds among them whose funds
  -- sum to less than 2^63: the allocation succeeds, and with the part that is left for mining it
  -- raises the sum of all funds by exactly the total supply.
  pub apply_genesis_allocations-supply :
      (s : S)
      → Wf s
      → contains addresses ecosystem_address ≡ true
      → contains addresses founder_address ≡ true
      → contains addresses community_address ≡ true
      → contains addresses treasury_address ≡ true
      → supply laws addresses s < 2 ^ 63
      → (s' : S) × (apply_genesis_allocations s ≡ (ok tt, s'))
        × (supply laws addresses s' + mining_allocation ≡ supply laws addresses s + total_supply)
  unfolding apply_genesis_allocations
  apply_genesis_allocations-supply s wf eco founder community treasury small =
      let (s₁, e₁, w₁, p₁) =
        credit_room s ecosystem_address ecosystem_allocation wf eco (omega arith) in
      let (s₂, e₂, w₂, p₂) =
        credit_room s₁ founder_address founder_allocation w₁ founder (omega arith) in
      let (s₃, e₃, w₃, p₃) =
        credit_room s₂ community_address community_allocation w₂ community (omega arith) in
      let (s₄, e₄, w₄, p₄) =
        credit_room s₃ treasury_address treasury_allocation w₃ treasury (omega arith) in
      (s₄, rw (e₁, e₂, e₃, e₄), omega arith)
