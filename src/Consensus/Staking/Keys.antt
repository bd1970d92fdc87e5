-- ===== src/Consensus/Staking/Keys.antt =====
-- The key of a pending withdrawal determines its address and its epochs.
use native.Mathlib.Nat.{pow-suc}
use kyvera_core.Prelude.{
  ℕ, zero, suc, ◌+◌, ◌*◌, ◌/◌, ◌%◌, ◌^◌, ◌<◌, ◌≡◌, refl, ap, sym, ◌∙◌, [], ◌∷◌, ◌++◌, Text, length,
  length-append, arith, codes,
}
use mathlib.Core.List.{append_cancel_left}
use kyvera_core.Types.Account.{u64_mod}
use kyvera_core.Storage.TxStore.{padded, padded_from}
use kyvera_core.Consensus.Staking.{PendingUnstake, pending_unstake_prefix, pending_key}

padded_from-append :
    (width n : ℕ) (acc s : Text) → padded_from width n acc ++ s ≡ padded_from width n (acc ++ s)
unfolding padded_from
padded_from-append zero n acc s = refl
padded_from-append (suc width) n acc s = padded_from-append width (n / 10) _ s

length-padded_from :
    (width n : ℕ) (acc : Text) → length (padded_from width n acc) ≡ width + length acc
unfolding padded_from
length-padded_from zero n acc = omega arith
length-padded_from (suc width) n acc = omega (arith, length-padded_from width (n / 10) (_ ∷ acc))

-- The digits of a number that fits determine it and what follows them.
padded_from_inj :
    (width n m : ℕ) (acc acc' : Text)
    → n < 10 ^ width
    → m < 10 ^ width
    → padded_from width n acc ≡ padded_from width m acc'
    → (n ≡ m) × (acc ≡ acc')
unfolding padded_from
padded_from_inj zero n m acc acc' h h' e = (omega arith, e)
padded_from_inj (suc width) n m acc acc' h h' e =
    let p : 10 ^ suc width ≡ 10 ^ width * 10 = pow-suc 10 width in
    let (high, later) =
      padded_from_inj width (n / 10) (m / 10) _ _ (omega (arith, p)) (omega (arith, p)) e in
    let low : b'0' + n % 10 ≡ b'0' + m % 10 = cc (later) in (omega (arith, high, low), cc (later))

-- Ends of one length that follow the same byte.
split_end :
    (s s' t t' : Text) (c : ℕ)
    → length t ≡ length t'
    → s ++ (c ∷ t) ≡ s' ++ (c ∷ t')
    → (s ≡ s') × (t ≡ t')
split_end [] [] t t' c h e = (refl, cc (e))
split_end [] (d ∷ s') t t' c h e =
    let later : t ≡ s' ++ (c ∷ t') = cc (e) in
    absurd (omega (arith, h, ap length later, length-append s' (c ∷ t')))
split_end (d ∷ s) [] t t' c h e =
    let later : s ++ (c ∷ t) ≡ t' = cc (e) in
    absurd (omega (arith, h, ap length later, length-append s (c ∷ t)))
split_end (d ∷ s) (d' ∷ s') t t' c h e =
    let later : s ++ (c ∷ t) ≡ s' ++ (c ∷ t') = cc (e) in
    let (front, end) = split_end s s' t t' c h later in (cc (e, front), end)

pub pending_key_inj :
    (p q : PendingUnstake)
    → p.unlock_epoch < u64_mod
    → q.unlock_epoch < u64_mod
    → p.request_epoch < u64_mod
    → q.request_epoch < u64_mod
    → pending_key p ≡ pending_key q
    → (p.address ≡ q.address) × (p.request_epoch ≡ q.request_epoch)
unfolding pending_key padded
pending_key_inj p q pu qu pr qr e =
    let rest : PendingUnstake → Text =
      λ x. codes ":" ++ (x.address ++ (codes ":" ++ padded x.request_epoch)) in
    let keys : padded_from 20 p.unlock_epoch (rest p) ≡ padded_from 20 q.unlock_epoch (rest q) =
      sym (padded_from-append 20 p.unlock_epoch [] (rest p))
      ∙ append_cancel_left pending_unstake_prefix _ _ e
      ∙ padded_from-append 20 q.unlock_epoch [] (rest q) in
    let (_, ends) =
      padded_from_inj 20 p.unlock_epoch q.unlock_epoch (rest p) (rest q) (omega arith) (omega arith)
        keys in
    let (addresses, digits) =
      split_end p.address q.address (padded p.request_epoch) (padded q.request_epoch) b':'
        (length-padded_from 20 p.request_epoch [] ∙ sym (length-padded_from 20 q.request_epoch []))
        (append_cancel_left (codes ":") _ _ ends) in
    (
      addresses,
      (padded_from_inj 20 p.request_epoch q.request_epoch [] [] (omega arith) (omega arith)
          digits).0,
    )
