-- ===== src/Consensus/Validators/Supply.antt =====
-- What rewards do to the sum of all funds.
use kyvera_core.Prelude.{
  text_eq, ℕ, ◌+◌, ◌-◌, ◌*◌, ◌/◌, ◌%◌, ◌^◌, ◌≤◌, ◌<◌, ◌≡◌, sym, ap, subst, inl, inr, Bool-cases,
  Bool, true, ◌&&◌, List, [], ◌∷◌, Text, arith, ok, ltb, is_empty, ◌==◌,
}
use kyvera_core.Types.Account.{Account, u64_mod}
use kyvera_core.Types.Transaction.{Transaction}
use kyvera_core.Storage.Exec.{bind_inversion, pure}
use kyvera_core.Storage.Store.{Store}
use kyvera_core.Storage.Store.Laws.{Laws, holder, credited, supply, contains, distinct}
use kyvera_core.Storage.AccountStore.Outcomes.{credit_account_ok}
use kyvera_core.Storage.AccountStore.{credit_account}
use kyvera_core.Storage.StateTrie.{treasury_address}
use kyvera_core.Storage.StateTrie.Supply.{supply_credit}
use kyvera_core.Consensus.Coinbase.{
  coinbase_sender, credit_positive, apply_coinbase, calculate_validator_fee_share, saturating_add,
}
use kyvera_core.Consensus.Validators.{
  validators_of, weigh, sum_weights, share_of, pay_shares, get_active_validator_set,
  distribute_weights, distribute_validator_rewards, apply_epoch_rewards,
}
use kyvera_core.Consensus.Validators.Shares.{shares, weight_total, shares_bounded}

-- Every address of the weights is listed.
unfoldable pub all_listed : List Text → List (Text × ℕ) → Bool
unfolding contains
all_listed addresses [] = true
all_listed addresses ((a, weight) ∷ rest) = contains addresses a && all_listed addresses rest

module _ {S : Type 0} {store : Store S} (laws : Laws store) where
  -- The weights of the validators of a state.
  abbrev pub weights_at : S → List (Text × ℕ)
  weights_at s = weigh (validators_of (laws.listed s))

module _ {S : Type 0} ⦃store : Store S⦄ (laws : Laws store) (addresses : List Text)
    (once : distinct addresses ≡ true) where
  open laws use {Wf, saved, saved-Wf, get_account_ok, save_account_ok, list_accounts_ok}

  -- A state reached from another by paying out an amount.
  abbrev pub Paid : S → ℕ → S → Type 0
  Paid s amount s' = (supply laws addresses s' ≡ supply laws addresses s + amount) × Wf s'

  Paid-more : (s s₁ s' : S) (a b : ℕ) → Paid s a s₁ → Paid s₁ b s' → Paid s (a + b) s'
  Paid-more s s₁ s' a b (e, w) (e', w') = (omega arith, w')

  Paid-none : (s s' : S) → s ≡ s' → Wf s → Paid s 0 s'
  Paid-none s s' same wf = subst (Paid s 0) same (omega arith, wf)

  -- A credit that succeeds pays its amount.
  pub credit_account-Paid :
      (a : Text) (amount : ℕ) (s s' : S)
      → Wf s
      → contains addresses a ≡ true
      → credit_account a amount s ≡ (ok tt, s')
      → Paid s amount s'
  credit_account-Paid a amount s s' wf listed e =
      let x : Account = credited laws s a amount in
      elim (Bool-cases (ltb ((holder laws s a).balance + amount) u64_mod)) [
        | inl room ↦
            subst (Paid s amount)
              (let same : saved x s ≡ s' = cc (e, room, credit_account_ok laws s wf a amount) in
                same)
              (supply_credit laws addresses once s a amount wf listed, saved-Wf s x wf)
        | inr full ↦ absurd (cc (e, full, credit_account_ok laws s wf a amount))
      ]

  -- The loop pays the sum of the shares and returns it.
  pay_shares-Paid :
      (t w : ℕ) (weights : List (Text × ℕ)) (d d' : ℕ) (s s' : S)
      → Wf s
      → all_listed addresses weights ≡ true
      → d + shares t w weights < u64_mod
      → pay_shares t w weights d s ≡ (ok d', s')
      → (d' ≡ d + shares t w weights) × Paid s (shares t w weights) s'
  unfolding pay_shares shares all_listed
  pay_shares-Paid t w [] d d' s s' wf listed small e =
      let same : s ≡ s' = cc (e) in
      (let ds : d ≡ d' = cc (e) in omega (arith, ds), Paid-none s s' same wf)
  pay_shares-Paid t w ((a, x) ∷ rest) d d' s s' wf listed small e =
      elim (Bool-cases (ltb 0 share)) [
        | inl some_share ↦
            (let (u, s₁, first, later) =
                bind_inversion (credit_account a share)
                  (λ _. pay_shares t w rest (saturating_add d share)) s s' d'
                  (rw some_share at e) in
              let paid = credit_account-Paid a share s s₁ wf (ground arith) first in
              let ih =
                pay_shares-Paid t w rest (saturating_add d share) d' s₁ s' paid.1 (ground arith)
                  (omega arith) later in
              (omega (arith, ih.0), Paid-more s s₁ s' share (shares t w rest) paid ih.1))
        | inr no_share ↦
            (let ih =
                pay_shares-Paid t w rest d d' s s' wf (ground arith) (omega arith)
                  (rw no_share at e) in
              let none_left : share ≡ 0 = ground arith in
              (omega (arith, ih.0), (omega (arith, ih.1.0), ih.1.1)))
      ]
    where
      share : ℕ
      share = share_of t w x

  distribute_weights-Paid :
      (t d : ℕ) (validators : List Account) (s s' : S)
      → Wf s
      → t < u64_mod
      → all_listed addresses (weigh validators) ≡ true
      → weight_total (weigh validators) < 2 ^ 128
      → distribute_weights t validators s ≡ (ok d, s')
      → (d ≤ t) × Paid s d s'
  unfolding distribute_weights
  distribute_weights-Paid t d validators s s' wf small listed room e =
      let none_paid : (pure 0 s ≡ (ok d, s')) → (d ≤ t) × Paid s d s' = λ p.
        let zero_paid : d ≡ 0 = cc (p) in
        rw zero_paid (omega arith, Paid-none s s' (let q : s ≡ s' = cc (p) in q) wf) in
      elim (Bool-cases (is_empty validators)) [
        | inl no_one ↦ none_paid (rw no_one at e)
        | inr someone ↦ elim (Bool-cases (sum_weights (weigh validators) == 0)) [
          | inl weightless ↦ none_paid (rw (someone, weightless) at e)
          | inr weighty ↦
              (let bound = shares_bounded t (weigh validators) room (ground arith) in
                let (exact, paid) =
                  pay_shares-Paid t (sum_weights (weigh validators)) (weigh validators) 0 d s s' wf
                    listed (omega arith) (rw (someone, weighty) at e) in
                let exact' : d ≡ shares t (sum_weights (weigh validators)) (weigh validators) =
                  omega arith in
                (omega arith, subst (λ n. Paid s n s') (sym exact') paid))
        ]
      ]

  -- On a lawful store, for a list of distinct addresses with all validators among them, and weights
  -- that sum to less than 2^128: a distribution that succeeds returns at most the share that it was
  -- given, and raises the sum of all funds by exactly what it returns.
  pub distribute_validator_rewards-supply :
      (t d : ℕ) (s s' : S)
      → Wf s
      → t < u64_mod
      → all_listed addresses (weights_at laws s) ≡ true
      → weight_total (weights_at laws s) < 2 ^ 128
      → distribute_validator_rewards t s ≡ (ok d, s')
      → (d ≤ t) × Paid s d s'
  unfolding distribute_validator_rewards get_active_validator_set
  distribute_validator_rewards-supply t d s s' wf small listed room e = elim (Bool-cases (t == 0)) [
    | inl nothing ↦
        (let p : pure 0 s ≡ (ok d, s') = rw nothing at e in
          let zero_paid : d ≡ 0 = cc (p) in
          rw zero_paid (omega arith, Paid-none s s' (let q : s ≡ s' = cc (p) in q) wf))
    | inr something ↦
        distribute_weights-Paid t d (validators_of (laws.listed s)) s s' wf small listed room
          (rw (something, list_accounts_ok s wf) at e)
  ]

  credit_positive-Paid :
      (a : Text) (amount : ℕ) (s s' : S)
      → Wf s
      → contains addresses a ≡ true
      → credit_positive a amount s ≡ (ok tt, s')
      → Paid s amount s'
  unfolding credit_positive
  credit_positive-Paid a amount s s' wf listed e = elim (Bool-cases (ltb 0 amount)) [
    | inl positive ↦ credit_account-Paid a amount s s' wf listed (rw positive at e)
    | inr nothing ↦
        (let p : pure tt s ≡ (ok tt, s') = rw nothing at e in
          let zero_paid : amount ≡ 0 = ground arith in
          rw zero_paid (Paid-none s s' (let q : s ≡ s' = cc (p) in q) wf))
  ]

  apply_coinbase-Paid :
      (coinbase : Transaction) (share : ℕ) (s s' : S)
      → Wf s
      → contains addresses coinbase.receiver ≡ true
      → apply_coinbase coinbase share s ≡ (ok tt, s')
      → Paid s (coinbase.amount + share) s'
  unfolding apply_coinbase
  apply_coinbase-Paid coinbase share s s' wf listed e =
      elim (Bool-cases (text_eq coinbase.sender coinbase_sender)) [
        | inl genuine ↦
            (let (_, s₁, reward, fees) =
                bind_inversion (credit_positive coinbase.receiver coinbase.amount)
                  (λ _. credit_positive coinbase.receiver share) s s' tt (rw genuine at e) in
              let paid =
                credit_positive-Paid coinbase.receiver coinbase.amount s s₁ wf listed reward in
              Paid-more s s₁ s' coinbase.amount share paid
                (credit_positive-Paid coinbase.receiver share s₁ s' paid.1 listed fees))
        | inr other ↦ absurd (cc (e, other))
      ]

  -- On a lawful store, for a list of distinct addresses with the miner, the treasury and, after the
  -- coinbase, all validators among them, and weights that then sum to less than 2^128: epoch
  -- rewards that succeed raise the sum of all funds by exactly the coinbase's amount and the
  -- validators' share of the fees.
  pub apply_epoch_rewards-supply :
      (coinbase : Transaction) (total_fees : ℕ) (s s' : S)
      → Wf s
      → contains addresses coinbase.receiver ≡ true
      → contains addresses treasury_address ≡ true
      → all_listed addresses (weights_at laws (apply_coinbase coinbase 0 s).1) ≡ true
      → weight_total (weights_at laws (apply_coinbase coinbase 0 s).1) < 2 ^ 128
      → apply_epoch_rewards coinbase total_fees s ≡ (ok tt, s')
      → supply laws addresses s'
        ≡ supply laws addresses s + coinbase.amount + calculate_validator_fee_share total_fees
  unfolding apply_epoch_rewards calculate_validator_fee_share
  apply_epoch_rewards-supply coinbase total_fees s s' wf miner treasury listed room e =
      let share : ℕ = total_fees * 40 % u64_mod / 100 in
      let (_, s₁, mined, later) = bind_inversion (apply_coinbase coinbase 0) _ s s' tt e in
      let (d, s₂, spread, last) =
        bind_inversion (distribute_validator_rewards share) _ s₁ s' tt later in
      let at₁ : (apply_coinbase coinbase 0 s).1 ≡ s₁ = ap (λ r. r.1) mined in
      let paid₁ = apply_coinbase-Paid coinbase 0 s s₁ wf miner mined in
      let (le, paid₂) =
        distribute_validator_rewards-supply share d s₁ s₂ paid₁.1 (omega arith) (rw at₁ at listed)
          (rw at₁ at room) spread in
      let paid₃ = credit_positive-Paid treasury_address (share - d) s₂ s' paid₂.1 treasury last in
      omega (arith, paid₁.0, paid₂.0, paid₃.0, le)
