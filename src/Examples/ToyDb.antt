-- ===== src/Examples/ToyDb.antt =====
-- A small database: the trees are association lists, an account is the list of its numbers
-- followed by its address. It shows that the assumptions on `sled` and `serde_json` can hold.
use kyvera_core.Prelude.{
  map, Bool-cases, inl, inr, ℕ, ◌≡◌, refl, Bool, true, false, List, [], ◌∷◌, Option, none, some,
  arith, Text, text_eq, text_lt, if◌then◌else◌, ◌==◌, length,
}
use kyvera_core.Types.Account.{Account, ValidatorTier, igniter, kinetic, nexus}
use kyvera_core.Storage.Db.{
  Sled, Codec, KyveraDb, AllEntries, entry_at, put_entry, drop_entry, prefixed, Works, Lossless,
}
use kyvera_core.Storage.Db.Lookup.{entry_at-drop_entry, entry_at-put_entry}
use kyvera_core.Storage.AccountStore.Database.Lawful.{Decodes}

abbrev pub Pairs : Type 0
Pairs = List (Text × Text)

instance abbrev pub toy_sled : Sled
toy_sled = record {
  Tree = Pairs;
  insert = λ t k v. some (put_entry k v t);
  get = λ t k. some (entry_at t k);
  remove = λ t k. some (drop_entry k t);
  contains_key = λ t k. some (elim (entry_at t k) [ none ↦ false | some v ↦ true ]);
  iter = λ t. map some t;
  scan_prefix = λ t p. map some (prefixed p t);
  len = λ t. length t;
}

pub drop_entry-AllEntries :
    (P : Text × Text → Type 0) (t : Pairs) (k : Text)
    → AllEntries P t
    → AllEntries P (drop_entry k t)
unfolding drop_entry
drop_entry-AllEntries P [] k all = tt
drop_entry-AllEntries P ((j, v) ∷ t) k (here, all) = elim (Bool-cases (text_eq j k)) [
  | inl same ↦ rw same (drop_entry-AllEntries P t k all)
  | inr other ↦ rw other (here, drop_entry-AllEntries P t k all)
]

pub put_entry-AllEntries :
    (P : Text × Text → Type 0) (t : Pairs) (k v : Text)
    → AllEntries P t
    → P (k, v)
    → AllEntries P (put_entry k v t)
unfolding put_entry
put_entry-AllEntries P [] k v all new = (new, tt)
put_entry-AllEntries P ((j, w) ∷ t) k v (here, all) new = elim (Bool-cases (text_eq j k)) [
  | inl same ↦ rw same (new, all)
  | inr other ↦ elim (Bool-cases (text_lt k j)) [
    | inl before ↦ rw (other, before) (new, (here, all))
    | inr after ↦ rw (other, after) (here, put_entry-AllEntries P t k v all new)
  ]
]

abbrev pub toy_works : Works toy_sled
toy_works = record {
  find = entry_at;
  put = λ t k v. put_entry k v t;
  drop = λ t k. drop_entry k t;
  entries = λ t. t;
  get_ok = λ t k. refl;
  insert_ok = λ t k v. refl;
  remove_ok = λ t k. refl;
  iter_ok = λ t. refl;
  scan_ok = λ t p. refl;
  contains_ok = λ t k. refl;
  entry_at-entries = λ t k. refl;
  put_entry-entries = λ t k v. refl;
  drop_entry-entries = λ t k. refl;
  find-put = entry_at-put_entry;
  find-drop = entry_at-drop_entry;
  entries-put = put_entry-AllEntries;
  entries-drop = drop_entry-AllEntries;
}

abbrev tier_code : Option ValidatorTier → ℕ
tier_code none = 0
tier_code (some igniter) = 1
tier_code (some kinetic) = 2
tier_code (some nexus) = 3

abbrev tier_of : ℕ → Option ValidatorTier
tier_of n =
    if n == 1
    then some igniter
    else if n == 2
    then some kinetic
    else if n == 3
    then some nexus
    else none

abbrev flag_code : Bool → ℕ
flag_code true = 1
flag_code false = 0

abbrev pub encode : Account → Text
encode x =
    x.balance
    ∷ (x.staked_balance
        ∷ (x.nonce
            ∷ (tier_code x.validator_tier
                ∷ (flag_code x.is_contract ∷ (x.last_reward_epoch ∷ x.address)))))

abbrev pub decode : Text → Option Account
decode (b ∷ (s ∷ (n ∷ (t ∷ (c ∷ (e ∷ address)))))) = some (record {
  address = address;
  balance = b;
  staked_balance = s;
  nonce = n;
  validator_tier = tier_of t;
  is_contract = c == 1;
  last_reward_epoch = e;
})
decode _ = none

instance abbrev pub toy_codec : Codec Account
toy_codec = record { to_vec = λ x. some (encode x); from_slice = decode }

pub decode-encode : (x : Account) → decode (encode x) ≡ some x
decode-encode x = ground arith

abbrev pub toy_lossless : Lossless toy_codec
toy_lossless = record { encode = encode; to_vec_ok = λ x. refl; from_slice_ok = decode-encode }

abbrev pub Db : Type 0
Db = KyveraDb toy_sled

abbrev pub empty_db : Db
empty_db = record {
  blocks_by_hash = [];
  blocks_by_height = [];
  accounts = [];
  transactions = [];
  metadata = [];
}

pub empty_db-Decodes : Decodes toy_works toy_lossless empty_db
unfolding entry_at
empty_db-Decodes = record { at = λ a. tt; all = tt }
