-- ===== src/Examples/Serial.antt =====
-- A small serialisation for the test data: every part is written so that it can be read off the
-- front. It shows that the assumptions on `serde_json` can hold at every type.
use kyvera_core.Prelude.{
  ℕ, zero, suc, ◌≡◌, refl, ap, Bool, true, false, Option, none, some, List, [], ◌∷◌, ◌++◌, Text,
  ◌==◌, if◌then◌else◌,
}
use mathlib.Core.List.{append_assoc}
use kyvera_core.Prelude.Int.{ℤ, pos, negsuc}
use kyvera_core.Types.Account.{Account, ValidatorTier, igniter, kinetic, nexus}
use kyvera_core.Types.Transaction.{
  TransactionType, transfer, stake_lock, stake_unlock, contract_deploy, contract_call,
}

pub record Serial (A : Type 0) : Type 0 where
  pub write : A → Text
  pub read : Text → Option (A × Text)
  pub read-write : (a : A) (rest : Text) → read (write a ++ rest) ≡ some (a, rest)

abbrev pub number : Serial ℕ
number = record {
  write = λ n. n ∷ [];
  read = λ s. elim s [ [] ↦ none | n ∷ rest ↦ some (n, rest) ];
  read-write = λ n rest. refl;
}

-- A value that another type stands for.
abbrev pub by :
    {A B : Type 0} (f : A → B) (g : B → A) → ((a : A) → g (f a) ≡ a) → Serial B → Serial A
by f g e s = record {
  write = λ a. s.write (f a);
  read = λ t. elim (s.read t) [ none ↦ none | some (b, rest) ↦ some (g b, rest) ];
  read-write = λ a rest. rw (s.read-write (f a) rest) (ap (λ x. some (x, rest)) (e a));
}

abbrev pub both : {A B : Type 0} → Serial A → Serial B → Serial (A × B)
both s t = record {
  write = λ p. s.write p.0 ++ t.write p.1;
  read = λ x. elim (s.read x) [
    | none ↦ none
    | some (a, rest) ↦ elim (t.read rest) [ none ↦ none | some (b, rest') ↦ some ((a, b), rest') ]
  ];
  read-write = λ p rest. rw (
    append_assoc (s.write p.0) (t.write p.1) rest,
    s.read-write p.0 (t.write p.1 ++ rest),
    t.read-write p.1 rest,
  );
}

abbrev pub read_many : {A : Type 0} → Serial A → ℕ → Text → Option (List A × Text)
read_many s zero x = some ([], x)
read_many s (suc n) x = elim (s.read x) [
  | none ↦ none
  | some (a, rest) ↦ elim (read_many s n rest) [
    | none ↦ none
    | some (others, rest') ↦ some (a ∷ others, rest')
  ]
]

abbrev pub write_many : {A : Type 0} → Serial A → List A → Text
write_many s [] = []
write_many s (a ∷ others) = s.write a ++ write_many s others

abbrev pub how_many : {A : Type 0} → List A → ℕ
how_many [] = zero
how_many (a ∷ others) = suc (how_many others)

pub read_many-write_many :
    {A : Type 0} (s : Serial A) (xs : List A) (rest : Text)
    → read_many s (how_many xs) (write_many s xs ++ rest) ≡ some (xs, rest)
read_many-write_many s [] rest = refl
read_many-write_many s (a ∷ others) rest = rw (
  append_assoc (s.write a) (write_many s others) rest,
  s.read-write a (write_many s others ++ rest),
  read_many-write_many s others rest,
)

abbrev pub many : {A : Type 0} → Serial A → Serial (List A)
many s = record {
  write = λ xs. how_many xs ∷ write_many s xs;
  read = λ t. elim t [ [] ↦ none | n ∷ rest ↦ read_many s n rest ];
  read-write = λ xs rest. read_many-write_many s xs rest;
}

abbrev pub text : Serial Text
text = many number

abbrev pub flag_code : Bool → ℕ
flag_code true = 1
flag_code false = 0

pub flag_code_ok : (b : Bool) → (flag_code b == 1) ≡ b
flag_code_ok true = refl
flag_code_ok false = refl

abbrev pub flag : Serial Bool
flag = by flag_code (λ n. n == 1) flag_code_ok number

abbrev pub signed_code : ℤ → Bool × ℕ
signed_code (pos n) = (true, n)
signed_code (negsuc n) = (false, n)

abbrev pub signed_of : Bool × ℕ → ℤ
signed_of (true, n) = pos n
signed_of (false, n) = negsuc n

pub signed_code_ok : (z : ℤ) → signed_of (signed_code z) ≡ z
signed_code_ok (pos n) = refl
signed_code_ok (negsuc n) = refl

abbrev pub signed : Serial ℤ
signed = by signed_code signed_of signed_code_ok (both flag number)

abbrev pub option_code : {A : Type 0} → Option A → List A
option_code none = []
option_code (some a) = a ∷ []

abbrev pub option_of : {A : Type 0} → List A → Option A
option_of [] = none
option_of (a ∷ rest) = some a

pub option_code_ok : {A : Type 0} (o : Option A) → option_of (option_code o) ≡ o
option_code_ok none = refl
option_code_ok (some a) = refl

abbrev pub optional : {A : Type 0} → Serial A → Serial (Option A)
optional s = by option_code option_of option_code_ok (many s)

abbrev pub tier_code : ValidatorTier → ℕ
tier_code igniter = 1
tier_code kinetic = 2
tier_code nexus = 3

abbrev pub tier_of : ℕ → ValidatorTier
tier_of n = if n == 1 then igniter else if n == 2 then kinetic else nexus

pub tier_code_ok : (t : ValidatorTier) → tier_of (tier_code t) ≡ t
tier_code_ok igniter = refl
tier_code_ok kinetic = refl
tier_code_ok nexus = refl

abbrev pub kind_code : TransactionType → ℕ
kind_code transfer = 0
kind_code stake_lock = 1
kind_code stake_unlock = 2
kind_code contract_deploy = 3
kind_code contract_call = 4

abbrev pub kind_of : ℕ → TransactionType
kind_of n =
    if n == 0
    then transfer
    else if n == 1
    then stake_lock
    else if n == 2
    then stake_unlock
    else if n == 3
    then contract_deploy
    else contract_call

pub kind_code_ok : (k : TransactionType) → kind_of (kind_code k) ≡ k
kind_code_ok transfer = refl
kind_code_ok stake_lock = refl
kind_code_ok stake_unlock = refl
kind_code_ok contract_deploy = refl
kind_code_ok contract_call = refl

abbrev pub account : Serial Account
account =
    by
      (λ x. (
        x.address,
        (
          x.balance,
          (x.staked_balance, (x.nonce, (x.validator_tier, (x.is_contract, x.last_reward_epoch)))),
        ),
      ))
      (λ (a, (b, (s, (n, (t, (c, e)))))). record {
        address = a;
        balance = b;
        staked_balance = s;
        nonce = n;
        validator_tier = t;
        is_contract = c;
        last_reward_epoch = e;
      })
      (λ x. refl)
      (both text (
        both number (
          both number (
            both number
              (both (optional (by tier_code tier_of tier_code_ok number)) (both flag number))))))
