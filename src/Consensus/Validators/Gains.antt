-- ===== src/Consensus/Validators/Gains.antt =====
-- What a distribution of fees does to the balance of an address.
use kyvera_core.Prelude.{
  text_eq, text_eq_sound, ℕ, ◌+◌, ◌^◌, ◌<◌, ◌≡◌, ap, subst, inl, inr, Bool-cases, false, ◌||◌, List,
  [], ◌∷◌, Text, arith, ok, ltb, is_empty, ◌==◌, if◌then◌else◌,
}
use kyvera_core.Types.Account.{Account, u64_mod}
use kyvera_core.Types.Transaction.{Transaction}
use kyvera_core.Storage.Exec.{bind_inversion, pure}
use kyvera_core.Storage.Store.{Store}
use kyvera_core.Storage.Store.Laws.{Laws, holder, credited, holder-saved, holder-address}
use kyvera_core.Storage.AccountStore.Outcomes.{credit_account_ok}
use kyvera_core.Storage.AccountStore.{credit_account}
use kyvera_core.Consensus.Coinbase.{
  coinbase_sender, credit_positive, apply_coinbase, saturating_add,
}
use kyvera_core.Consensus.Validators.{
  validators_of, weigh, sum_weights, share_of, pay_shares, get_active_validator_set,
  distribute_weights, distribute_validator_rewards,
}
use kyvera_core.Consensus.Validators.Shares.{shares, weight_total, shares_bounded}
use kyvera_core.Consensus.Validators.Supply.{weights_at}

-- An amount that goes to `a`, as the address `b` sees it.
unfoldable pub paid_to : Text → Text → ℕ → ℕ
paid_to b a amount = if text_eq a b then amount else 0

-- The shares of the address `b`.
unfoldable pub shares_to : Text → ℕ → ℕ → List (Text × ℕ) → ℕ
shares_to b total_share total_weight [] = 0
shares_to b total_share total_weight ((a, weight) ∷ rest) =
    paid_to b a (share_of total_share total_weight weight)
    + shares_to b total_share total_weight rest

-- What the validators receive together, and what `b` receives of it: nothing if there is nothing to
-- share or no weight.
unfoldable pub spread : ℕ → List (Text × ℕ) → ℕ
spread t weights =
    if t == 0 || sum_weights weights == 0 then 0 else shares t (sum_weights weights) weights

unfoldable pub spread_to : Text → ℕ → List (Text × ℕ) → ℕ
spread_to b t weights =
    if t == 0 || sum_weights weights == 0 then 0 else shares_to b t (sum_weights weights) weights

module _ {S : Type 0} ⦃store : Store S⦄ (laws : Laws store) (b : Text) where
  open laws use {Wf, saved, saved-Wf, list_accounts_ok}

  -- A state in which `b` has a higher balance than in another.
  abbrev pub Gains : S → ℕ → S → Type 0
  Gains s amount s' = ((holder laws s' b).balance ≡ (holder laws s b).balance + amount) × Wf s'

  Gains-none : (s s' : S) → s ≡ s' → Wf s → Gains s 0 s'
  Gains-none s s' same wf = subst (Gains s 0) same (omega arith, wf)

  credited-Gains :
      (a : Text) (amount : ℕ) (s : S)
      → Wf s
      → Gains s (paid_to b a amount) (saved (credited laws s a amount) s)
  unfolding paid_to
  credited-Gains a amount s wf =
      let x : Account = credited laws s a amount in
      (
        ground (
          arith,
          ap (λ y. Account.balance y) (holder-saved laws s x b wf),
          holder-address laws s a wf,
          text_eq_sound a b,
        ),
        saved-Wf s x wf,
      )

  credit_account-Gains :
      (a : Text) (amount : ℕ) (s s' : S)
      → Wf s
      → credit_account a amount s ≡ (ok tt, s')
      → Gains s (paid_to b a amount) s'
  credit_account-Gains a amount s s' wf e =
      let x : Account = credited laws s a amount in
      elim (Bool-cases (ltb ((holder laws s a).balance + amount) u64_mod)) [
        | inl room ↦
            subst (Gains s (paid_to b a amount))
              (let same : saved x s ≡ s' = cc (e, room, credit_account_ok laws s wf a amount) in
                same)
              (credited-Gains a amount s wf)
        | inr full ↦ absurd (cc (e, full, credit_account_ok laws s wf a amount))
      ]

  pub credit_positive-Gains :
      (a : Text) (amount : ℕ) (s s' : S)
      → Wf s
      → credit_positive a amount s ≡ (ok tt, s')
      → Gains s (paid_to b a amount) s'
  unfolding credit_positive paid_to
  credit_positive-Gains a amount s s' wf e = elim (Bool-cases (ltb 0 amount)) [
    | inl positive ↦ credit_account-Gains a amount s s' wf (rw positive at e)
    | inr nothing ↦
        (let (same, w) =
            Gains-none s s'
              (let p : pure tt s ≡ (ok tt, s') = rw nothing at e in let q : s ≡ s' = cc (p) in q)
              wf in
          (ground arith, w))
  ]

  pub apply_coinbase-Gains :
      (coinbase : Transaction) (s s' : S)
      → Wf s
      → apply_coinbase coinbase 0 s ≡ (ok tt, s')
      → Gains s (paid_to b coinbase.receiver coinbase.amount) s'
  unfolding apply_coinbase paid_to
  apply_coinbase-Gains coinbase s s' wf e =
      elim (Bool-cases (text_eq coinbase.sender coinbase_sender)) [
        | inl genuine ↦
            (let (_, s₁, reward, fees) =
                bind_inversion (credit_positive coinbase.receiver coinbase.amount)
                  (λ _. credit_positive coinbase.receiver 0) s s' tt (rw genuine at e) in
              let (first, w) =
                credit_positive-Gains coinbase.receiver coinbase.amount s s₁ wf reward in
              let (last, w') = credit_positive-Gains coinbase.receiver 0 s₁ s' w fees in
              (ground arith, w'))
        | inr other ↦ absurd (cc (e, other))
      ]

  -- The loop returns the sum of the shares, of which `b` has received its own.
  pay_shares-Gains :
      (t w : ℕ) (weights : List (Text × ℕ)) (d d' : ℕ) (s s' : S)
      → Wf s
      → d + shares t w weights < u64_mod
      → pay_shares t w weights d s ≡ (ok d', s')
      → (d' ≡ d + shares t w weights) × Gains s (shares_to b t w weights) s'
  unfolding pay_shares shares shares_to paid_to
  pay_shares-Gains t w [] d d' s s' wf small e =
      let same : s ≡ s' = cc (e) in
      (let ds : d ≡ d' = cc (e) in omega (arith, ds), Gains-none s s' same wf)
  pay_shares-Gains t w ((a, x) ∷ rest) d d' s s' wf small e = elim (Bool-cases (ltb 0 share)) [
    | inl some_share ↦
        (let (u, s₁, first, later) =
            bind_inversion (credit_account a share)
              (λ _. pay_shares t w rest (saturating_add d share)) s s' d' (rw some_share at e) in
          let paid = credit_account-Gains a share s s₁ wf first in
          let ih =
            pay_shares-Gains t w rest (saturating_add d share) d' s₁ s' paid.1 (omega arith)
              later in
          (omega (arith, ih.0), (omega (arith, paid.0, ih.1.0), ih.1.1)))
    | inr no_share ↦
        (let ih = pay_shares-Gains t w rest d d' s s' wf (omega arith) (rw no_share at e) in
          let none_left : share ≡ 0 = ground arith in
          (omega (arith, ih.0), (ground (arith, ih.1.0), ih.1.1)))
  ]
    where
      share : ℕ
      share = share_of t w x

  distribute_weights-Gains :
      (t d : ℕ) (validators : List Account) (s s' : S)
      → Wf s
      → t < u64_mod
      → (t == 0) ≡ false
      → weight_total (weigh validators) < 2 ^ 128
      → distribute_weights t validators s ≡ (ok d, s')
      → (d ≡ spread t (weigh validators)) × Gains s (spread_to b t (weigh validators)) s'
  unfolding distribute_weights spread spread_to sum_weights is_empty
  distribute_weights-Gains t d [] s s' wf small some_share room e =
      let q : s ≡ s' = cc (e) in let z : d ≡ 0 = cc (e) in rw some_share (z, Gains-none s s' q wf)
  distribute_weights-Gains t d (v ∷ vs) s s' wf small some_share room e =
      elim (Bool-cases (sum_weights (weigh (v ∷ vs)) == 0)) [
        | inl weightless ↦
            (let p : pure 0 s ≡ (ok d, s') = rw weightless at e in
              let q : s ≡ s' = cc (p) in
              let z : d ≡ 0 = cc (p) in rw (some_share, weightless) (z, Gains-none s s' q wf))
        | inr weighty ↦
            (let bound = shares_bounded t (weigh (v ∷ vs)) room (ground arith) in
              let (exact, paid) =
                pay_shares-Gains t (sum_weights (weigh (v ∷ vs))) (weigh (v ∷ vs)) 0 d s s' wf
                  (omega arith) (rw weighty at e) in
              rw (some_share, weighty) (omega (arith, exact), paid))
      ]

  pub distribute_validator_rewards-Gains :
      (t d : ℕ) (s s' : S)
      → Wf s
      → t < u64_mod
      → weight_total (weights_at laws s) < 2 ^ 128
      → distribute_validator_rewards t s ≡ (ok d, s')
      → (d ≡ spread t (weights_at laws s)) × Gains s (spread_to b t (weights_at laws s)) s'
  unfolding distribute_validator_rewards get_active_validator_set spread spread_to
  distribute_validator_rewards-Gains t d s s' wf small room e = elim (Bool-cases (t == 0)) [
    | inl nothing ↦
        (let p : pure 0 s ≡ (ok d, s') = rw nothing at e in
          let q : s ≡ s' = cc (p) in let z : d ≡ 0 = cc (p) in rw nothing (z, Gains-none s s' q wf))
    | inr something ↦
        distribute_weights-Gains t d (validators_of (laws.listed s)) s s' wf small something room
          (rw (something, list_accounts_ok s wf) at e)
  ]
