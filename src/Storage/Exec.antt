-- ===== src/Storage/Exec.antt =====
-- Functions over `&KyveraDb` that return `Result<_, String>`. A write that precedes an error stays
-- written, so the state comes back beside the error too.
use kyvera_core.Prelude.{ℕ, ◌+◌, ◌≡◌, refl, Bool, Result, ok, err, ltb, if◌then◌else◌, Text}
use kyvera_core.Types.Account.{u64_mod}

-- The error messages, with the numbers that they print.
pub data Fault : Type 0 where
  io_failed serialize_failed deserialize_failed : Fault
  no_account : Text → Fault
  balance_overflow receiver_overflow cost_overflow stake_cost_overflow staked_overflow : Fault
  unstake_overflow : Fault
  insufficient_balance insufficient_stake insufficient_fee : ℕ → ℕ → Fault
  nonce_mismatch : ℕ → ℕ → Fault
  not_coinbase no_stake empty_hash bad_text bad_count : Fault
  allocation_mismatch genesis_failed : Fault
  already_initialized : ℕ → Fault

abbrev pub Exec : Type 0 → Type 0 → Type 0
Exec S A = S → Result Fault A × S

abbrev pub continue : {S A B : Type 0} → Result Fault A → (A → Exec S B) → Exec S B
continue (ok a) f s = f a s
continue (err e) f s = (err e, s)

infixl 5 ◌>>=◌ ◌>>◌
abbrev pub ◌>>=◌ : {S A B : Type 0} → Exec S A → (A → Exec S B) → Exec S B
◌>>=◌ m f s = continue (m s).0 f (m s).1

abbrev pub ◌>>◌ : {S B : Type 0} → Exec S (Unit {0}) → Exec S B → Exec S B
m >> k = m >>= λ _. k

abbrev pub pure : {S A : Type 0} → A → Exec S A
pure a s = (ok a, s)

abbrev pub lift : {S A : Type 0} → Result Fault A → Exec S A
lift r s = (r, s)

-- `if !b { return Err(e); }`
abbrev pub require : {S : Type 0} → Bool → Fault → Exec S (Unit {0})
require b e s = (if b then ok tt else err e, s)

-- A chain that succeeds has a first step that succeeds and a rest that succeeds after it.
continue_inversion :
    {S A B : Type 0} (r : Result Fault A) (f : A → Exec S B) (s s' : S) (b : B)
    → continue r f s ≡ (ok b, s')
    → (a : A) × (r ≡ ok a) × (f a s ≡ (ok b, s'))
continue_inversion (ok a) f s s' b e = (a, refl, e)
continue_inversion (err x) f s s' b e = absurd (cc (e))

pub bind_inversion :
    {S A B : Type 0} (m : Exec S A) (f : A → Exec S B) (s s' : S) (b : B)
    → (m >>= f) s ≡ (ok b, s')
    → (a : A) × (s₁ : S) × (m s ≡ (ok a, s₁)) × (f a s₁ ≡ (ok b, s'))
bind_inversion m f s s' b e =
    let (a, first, rest) = continue_inversion (m s).0 f (m s).1 s' b e in
    (a, (m s).1, λ i. (first i, (m s).1), rest)

-- `a.checked_add(b).ok_or(e)`
abbrev pub checked_add : ℕ → ℕ → Fault → Result Fault ℕ
checked_add a b e = if ltb (a + b) u64_mod then ok (a + b) else err e
