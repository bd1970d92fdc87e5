-- ===== src/Storage/StateTrie/Ledger.antt =====
-- The abstract view of the state transition: a ledger gives an account to every address, and a
-- transaction either has no effect on it or changes the sender, the receiver and the treasury.
pub mod Refinement
pub mod Progress
use kyvera_core.Prelude.{
  ℕ, ◌+◌, ◌-◌, ◌/◌, ◌%◌, Bool, true, false, ◌&&◌, Option, none, some, Text, text_eq, ltb, leb, ◌==◌,
  if◌then◌else◌,
}
use kyvera_core.Types.Account.{Account, u64_mod, from_staked_balance}
use kyvera_core.Types.Transaction.{
  Transaction, TransactionType, transfer, stake_lock, stake_unlock, contract_deploy, contract_call,
}
use kyvera_core.Storage.StateTrie.{treasury_address}

abbrev pub Ledger : Type 0
Ledger = Text → Account

abbrev pub set : Account → Ledger → Ledger
set x ledger a = if text_eq x.address a then x else ledger a

-- A credit has no effect when the balance would leave 64 bits.
unfoldable pub give : Text → ℕ → Ledger → Option Ledger
give a amount ledger =
    let total = (ledger a).balance + amount in
    if ltb total u64_mod then some (set (record (ledger a) { balance = total }) ledger) else none

abbrev pub after {ℓ κ} : {A : Type ℓ} {B : Type κ} → Option A → (A → Option B) → Option B
after none f = none
after (some a) f = f a

-- A tenth of the fee reaches the treasury; the rest is burnt.
unfoldable pub collect : ℕ → Ledger → Option Ledger
unfolding give
collect fee ledger =
    if ltb 0 (fee / 10) then give treasury_address (fee / 10) ledger else some ledger

-- What the sender needs, besides the nonce.
unfoldable pub affordable : TransactionType → Transaction → Account → Bool
affordable transfer tx x = leb (tx.amount + tx.fee) x.balance
affordable stake_lock tx x = leb (tx.amount + tx.fee) x.balance
affordable stake_unlock tx x = leb tx.amount x.staked_balance && leb tx.fee x.balance
affordable contract_deploy tx x = leb tx.fee x.balance
affordable contract_call tx x = leb tx.fee x.balance

-- The sums of the transition that must stay in 64 bits.
unfoldable pub fits : TransactionType → Transaction → Account → Bool
fits transfer tx x = ltb (tx.amount + tx.fee) u64_mod
fits stake_lock tx x =
    ltb (tx.amount + tx.fee) u64_mod && ltb (x.staked_balance + tx.amount) u64_mod
fits stake_unlock tx x = ltb (x.balance + tx.amount) u64_mod
fits contract_deploy tx x = true
fits contract_call tx x = true

-- The sender's account afterwards.
unfoldable pub spent : TransactionType → Transaction → Account → Account
spent transfer tx x = record x {
  balance = x.balance - (tx.amount + tx.fee);
  nonce = (x.nonce + 1) % u64_mod;
}
spent stake_lock tx x = record x {
  balance = x.balance - (tx.amount + tx.fee);
  staked_balance = x.staked_balance + tx.amount;
  nonce = (x.nonce + 1) % u64_mod;
  validator_tier = from_staked_balance (x.staked_balance + tx.amount);
}
spent stake_unlock tx x = record x {
  balance = x.balance + tx.amount - tx.fee;
  staked_balance = x.staked_balance - tx.amount;
  nonce = (x.nonce + 1) % u64_mod;
  validator_tier = from_staked_balance (x.staked_balance - tx.amount);
}
spent contract_deploy tx x = record x {
  balance = x.balance - tx.fee;
  nonce = (x.nonce + 1) % u64_mod;
}
spent contract_call tx x = record x {
  balance = x.balance - tx.fee;
  nonce = (x.nonce + 1) % u64_mod;
}

-- What reaches the receiver.
unfoldable pub received : TransactionType → Transaction → Ledger → Option Ledger
unfolding give
received transfer tx ledger = give tx.receiver tx.amount ledger
received stake_lock tx ledger = some ledger
received stake_unlock tx ledger = some ledger
received contract_deploy tx ledger = some ledger
received contract_call tx ledger = some ledger

unfoldable pub accepts : TransactionType → Transaction → Account → Bool
unfolding affordable fits
accepts kind tx x = affordable kind tx x && (fits kind tx x && (x.nonce == tx.nonce))

-- The ledger after a transaction of a kind, if it is accepted.
unfoldable pub effect : TransactionType → Transaction → Ledger → Option Ledger
unfolding accepts spent received collect
effect kind tx ledger =
    let x = ledger tx.sender in
    if accepts kind tx x
    then after (received kind tx (set (spent kind tx x) ledger)) (collect tx.fee)
    else none
