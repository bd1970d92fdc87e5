-- ===== src/Consensus/Rules/Spending.antt =====
-- `validate_block_rules`: the transactions of an accepted block.
use kyvera_core.Prelude.{
  ℕ, zero, suc, ◌+◌, ◌≤◌, ◌<◌, ◌≡◌, refl, inl, inr, Bool, true, false, ◌||◌, some, List, [], ◌∷◌,
  Text, text_eq, Bool-cases, ok, ensure, then_ok, ensure_ok, arith, get_elem?, ◌==◌, leb, leb→le,
  ==_iff,
}
use kyvera_core.Prelude.Int.{ℤ}
use kyvera_core.Types.Account.{Account, u64_mod}
use kyvera_core.Types.Transaction.{
  Transaction, transfer, stake_lock, stake_unlock, contract_deploy, contract_call,
}
use kyvera_core.Types.Block.{Block}
use kyvera_core.Chain.Hash.{Hasher}
use kyvera_core.Chain.BlockProducer.{ChainTip}
use kyvera_core.Storage.Store.{Store}
use kyvera_core.Storage.Store.Laws.{Laws, contains}
use kyvera_core.Consensus.Coinbase.{coinbase_sender}
use kyvera_core.Consensus.Rules.{
  required_balance, check_account, check_sender, check_transactions_from, check_transactions,
  validate_block_rules,
}
use kyvera_core.Consensus.Rules.Chained.{validate_block_rules-check_transactions}

or_false : (a b : Bool) → (a || b) ≡ false → (a ≡ false) × (b ≡ false)
or_false true b e = absurd (cc (e))
or_false false b e = (refl, e)

module _ {S : Type 0} ⦃store : Store S⦄ where
  -- What one step of the loop has checked.
  data Step (seen : List Text) (tx : Transaction) (rest : List Transaction) (db : S) : Type 0 where
    skipped :
        text_eq tx.sender coinbase_sender ≡ true
        → check_transactions_from seen rest db ≡ ok tt
        → Step seen tx rest db
    passed :
        contains seen tx.hash ≡ false
        → check_sender tx db ≡ ok tt
        → check_transactions_from (tx.hash ∷ seen) rest db ≡ ok tt
        → Step seen tx rest db

  step :
      (seen : List Text) (tx : Transaction) (rest : List Transaction) (db : S)
      → check_transactions_from seen (tx ∷ rest) db ≡ ok tt
      → Step seen tx rest db
  unfolding check_transactions_from
  step seen tx rest db e = elim (Bool-cases (text_eq tx.sender coinbase_sender)) [
    | inl coinbase ↦ skipped coinbase (rw coinbase at e)
    | inr plain ↦ elim (Bool-cases (contains seen tx.hash)) [
      | inl known ↦ absurd (cc (rw (plain, known) at e))
      | inr fresh ↦
          (let (sender, later) = then_ok (check_sender tx db) _ tt (rw (plain, fresh) at e) in
            passed fresh sender later)
    ]
  ]

  -- A transaction in the list that is not a coinbase was checked and was not seen before.
  checked_at :
      (seen : List Text) (transactions : List Transaction) (i : ℕ) (tx : Transaction) (db : S)
      → get_elem? transactions i ≡ some tx
      → text_eq tx.sender coinbase_sender ≡ false
      → check_transactions_from seen transactions db ≡ ok tt
      → (check_sender tx db ≡ ok tt) × (contains seen tx.hash ≡ false)
  unfolding contains
  checked_at seen [] i tx db at plain e = absurd (cc (at))
  checked_at seen (ux ∷ rest) zero tx db at plain e =
      let same : ux ≡ tx = cc (at) in
      elim (step seen ux rest db e) [
        | skipped coinbase later ↦ absurd (cc (coinbase, plain, same))
        | passed fresh sender later ↦ (rw same at sender, rw same at fresh)
      ]
  checked_at seen (ux ∷ rest) (suc i) tx db at plain e = elim (step seen ux rest db e) [
    | skipped coinbase later ↦ checked_at seen rest i tx db at plain later
    | passed fresh sender later ↦
        (let (sender', unseen) = checked_at (ux.hash ∷ seen) rest i tx db at plain later in
          (sender', (or_false (text_eq ux.hash tx.hash) (contains seen tx.hash) unseen).1))
  ]

  -- The hash of a checked transaction does not return later in the list.
  distinct_from :
      (seen : List Text) (transactions : List Transaction) (i j : ℕ) (tx ux : Transaction) (db : S)
      → i < j
      → get_elem? transactions i ≡ some tx
      → get_elem? transactions j ≡ some ux
      → text_eq tx.sender coinbase_sender ≡ false
      → text_eq ux.sender coinbase_sender ≡ false
      → check_transactions_from seen transactions db ≡ ok tt
      → text_eq tx.hash ux.hash ≡ false
  unfolding contains
  distinct_from seen [] i j tx ux db lt at at' plain plain' e = absurd (cc (at))
  distinct_from seen (vx ∷ rest) i zero tx ux db lt at at' plain plain' e = absurd (omega arith)
  distinct_from seen (vx ∷ rest) zero (suc j) tx ux db lt at at' plain plain' e =
      let same : vx ≡ tx = cc (at) in
      elim (step seen vx rest db e) [
        | skipped coinbase later ↦ absurd (cc (coinbase, plain, same))
        | passed fresh sender later ↦
            (let unseen = (checked_at (vx.hash ∷ seen) rest j ux db at' plain' later).1 in
              let apart : text_eq vx.hash ux.hash ≡ false =
                (or_false (text_eq vx.hash ux.hash) (contains seen ux.hash) unseen).0 in
              rw same at apart)
      ]
  distinct_from seen (vx ∷ rest) (suc i) (suc j) tx ux db lt at at' plain plain' e =
      elim (step seen vx rest db e) [
        | skipped coinbase later ↦
            distinct_from seen rest i j tx ux db (omega arith) at at' plain plain' later
        | passed fresh sender later ↦
            distinct_from (vx.hash ∷ seen) rest i j tx ux db (omega arith) at at' plain plain' later
      ]

-- What a transaction costs its sender, without a bound on the sum.
abbrev pub cost : Transaction → ℕ
cost tx = elim tx.transaction_type [
  | transfer ↦ tx.amount + tx.fee
  | stake_lock ↦ tx.amount + tx.fee
  | stake_unlock ↦ tx.fee
  | contract_deploy ↦ tx.fee
  | contract_call ↦ tx.fee
]

-- The saturated cost stands for the cost below the largest word.
cost-le :
    (tx : Transaction) (balance : ℕ)
    → balance + 1 < u64_mod
    → required_balance tx ≤ balance
    → cost tx ≤ balance
unfolding required_balance
cost-le tx balance small enough = ground arith

module _ {S : Type 0} ⦃store : Store S⦄ (laws : Laws store) ⦃h : Hasher⦄ (now : ℤ) (block : Block)
    (transactions : List Transaction) (tip : ChainTip) (db : S) (wf : laws.Wf db)
    (later : (block.header.index == 0) ≡ false)
    (accepted : validate_block_rules now block transactions tip db ≡ ok tt) where
  -- What the check of an account has compared.
  checked_account :
      (i : ℕ) (tx : Transaction) (account : Account)
      → get_elem? transactions i ≡ some tx
      → text_eq tx.sender coinbase_sender ≡ false
      → laws.account db tx.sender ≡ some account
      → (required_balance tx ≤ account.balance) × (account.nonce ≡ tx.nonce)
  unfolding check_transactions check_sender check_account
  checked_account i tx account at plain found =
      let checked =
        (checked_at [] transactions i tx db at plain (
          validate_block_rules-check_transactions now block transactions tip db later
            accepted)).0 in
      let (funds, nonce) =
        then_ok (ensure (leb (required_balance tx) account.balance) _) _ tt
          (rw (laws.get_account_ok db tx.sender wf, check_sender, found) at checked) in
      (leb→le _ _ (ensure_ok _ _ funds), (==_iff account.nonce tx.nonce).0 (ensure_ok _ _ nonce))

  -- In a block that is not at index 0 and that the rules accept over a lawful store, every
  -- transaction whose sender is not the coinbase sentinel and has an account with a balance below
  -- 2^64 - 1 costs at most that balance, where a transfer and a stake lock cost the amount and the
  -- fee and every other kind the fee, and carries exactly that account's nonce.
  pub validate_block_rules_affordable :
      (i : ℕ) (tx : Transaction) (account : Account)
      → get_elem? transactions i ≡ some tx
      → text_eq tx.sender coinbase_sender ≡ false
      → laws.account db tx.sender ≡ some account
      → account.balance + 1 < u64_mod
      → (cost tx ≤ account.balance) × (account.nonce ≡ tx.nonce)
  validate_block_rules_affordable i tx account at plain found small =
      let (enough, nonce) = checked_account i tx account at plain found in
      (cost-le tx account.balance small enough, nonce)

  -- In a block that is not at index 0 and that the rules accept over a lawful store, two
  -- transactions at different positions whose senders are not the coinbase sentinel have different
  -- hashes.
  pub validate_block_rules_distinct :
      (i j : ℕ) (tx ux : Transaction)
      → i < j
      → get_elem? transactions i ≡ some tx
      → get_elem? transactions j ≡ some ux
      → text_eq tx.sender coinbase_sender ≡ false
      → text_eq ux.sender coinbase_sender ≡ false
      → text_eq tx.hash ux.hash ≡ false
  unfolding check_transactions
  validate_block_rules_distinct i j tx ux lt at at' plain plain' =
      distinct_from [] transactions i j tx ux db lt at at' plain plain'
        (validate_block_rules-check_transactions now block transactions tip db later accepted)
