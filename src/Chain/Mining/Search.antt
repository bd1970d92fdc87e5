-- ===== src/Chain/Mining/Search.antt =====
-- The search for a nonce (`mine_block`): what it returns.
use kyvera_core.Prelude.{
  ℕ, zero, suc, ◌+◌, ◌≤◌, ◌<◌, ◌≡◌, ◌⊎◌, refl, subst, inl, inr, Bool, true, false, Option, none,
  some, arith, Bool-cases,
}
use kyvera_core.Types.Block.{BlockHeader}
use kyvera_core.Chain.Hash.{Hasher, meets_difficulty}
use kyvera_core.Chain.Mining.{MinedBlock, hash_with_nonce, mine_from, mine_block}

lt-or-eq : (a b : ℕ) → a ≤ b → (a < b) ⊎ (a ≡ b)
lt-or-eq a b h = omega arith

module _ ⦃h : Hasher⦄ where
  -- No nonce from `lo` up to, and not including, `hi` meets the header's difficulty.
  abbrev pub NoHit : BlockHeader → ℕ → ℕ → Type 0
  NoHit header lo hi =
      (k : ℕ)
      → lo ≤ k
      → k < hi
      → meets_difficulty (hash_with_nonce header k) header.difficulty ≡ false

  -- `m` is the first hit from `lo`, found before `hi`.
  pub record FirstHit (header : BlockHeader) (lo hi : ℕ) (m : MinedBlock) : Type 0 where
    pub above : lo ≤ m.nonce
    pub below : m.nonce < hi
    pub hashed : m.hash ≡ hash_with_nonce header m.nonce
    pub hit : meets_difficulty m.hash header.difficulty ≡ true
    pub counted : m.attempts ≡ m.nonce + 1
    pub first : NoHit header lo m.nonce

  -- What the search over the nonces from `lo` to `hi` returns.
  abbrev pub Outcome : BlockHeader → ℕ → ℕ → Option MinedBlock → Type 0
  Outcome header lo hi none = NoHit header lo hi
  Outcome header lo hi (some m) = FirstHit header lo hi m

  NoHit-step :
      (header : BlockHeader) (lo hi : ℕ)
      → meets_difficulty (hash_with_nonce header lo) header.difficulty ≡ false
      → NoHit header (lo + 1) hi
      → NoHit header lo hi
  NoHit-step header lo hi miss later k above below = elim (lt-or-eq lo k above) [
    | inl lt ↦ later k (omega arith) below
    | inr eq ↦
        subst (λ n. meets_difficulty (hash_with_nonce header n) header.difficulty ≡ false) eq miss
  ]

  Outcome-step :
      (header : BlockHeader) (lo hi : ℕ)
      → meets_difficulty (hash_with_nonce header lo) header.difficulty ≡ false
      → (o : Option MinedBlock) → Outcome header (lo + 1) hi o
      → Outcome header lo hi o
  Outcome-step header lo hi miss none out = NoHit-step header lo hi miss out
  Outcome-step header lo hi miss (some m) out = record {
    above = omega arith;
    below = out.below;
    hashed = out.hashed;
    hit = out.hit;
    counted = out.counted;
    first = NoHit-step header lo m.nonce miss out.first;
  }

  mine_from-Outcome :
      (header : BlockHeader) (left lo : ℕ)
      → Outcome header lo (lo + left) (mine_from header left lo)
  unfolding mine_from
  mine_from-Outcome header zero lo = λ k a b. absurd (omega arith)
  mine_from-Outcome header (suc left) lo = elim (Bool-cases (hits lo)) [
    | inl hit ↦ rw hit (record {
      above = omega arith;
      below = omega arith;
      hashed = refl;
      hit = hit;
      counted = refl;
      first = λ k a b. absurd (omega arith);
    })
    | inr miss ↦ rw miss (
        Outcome-step header lo (lo + suc left) miss (mine_from header left (lo + 1)) (
          subst (λ n. Outcome header (lo + 1) n (mine_from header left (lo + 1)))
            (let e : lo + 1 + left ≡ lo + suc left = omega arith in e)
            (mine_from-Outcome header left (lo + 1))))
  ]
    where
      hits : ℕ → Bool
      hits n = meets_difficulty (hash_with_nonce header n) header.difficulty

  -- For every header and attempt limit, the search returns the first nonce below the limit whose
  -- hash meets the difficulty, with that hash and the number of hashes tried, or nothing when no
  -- nonce below the limit meets it.
  pub mine_block-Outcome :
      (header : BlockHeader) (max_attempts : ℕ)
      → Outcome header 0 max_attempts (mine_block header max_attempts)
  unfolding mine_block
  mine_block-Outcome header max_attempts =
      subst (λ n. Outcome header 0 n (mine_from header max_attempts 0))
        (let e : 0 + max_attempts ≡ max_attempts = omega arith in e)
        (mine_from-Outcome header max_attempts 0)
