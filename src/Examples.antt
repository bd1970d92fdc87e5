-- ===== src/Examples.antt =====
-- The theorems at concrete inputs, and tests of the definitions.
mod ToyDb
mod Serial
mod Codecs
mod Stores
mod Effects
mod Startup
mod Secrets
mod Unstaking
mod Ledger
mod Hashing
mod Economics
mod Blocks
mod Snapshots
mod Pending
mod Rewards
mod Rules
mod Allocation
