-- ===== src/Storage/AccountStore/Database/Lawful.antt =====
-- The laws of the interface, for the database over `sled` and `serde_json`.
use kyvera_core.Prelude.{
  ◌≡◌, refl, ap, ◌∙◌, inl, inr, Bool-cases, Option, none, some, Text, ok, text_eq, List, [], ◌∷◌,
  map, text_eq_sound, if◌then◌else◌, arith,
}
use kyvera_core.Types.Account.{Account}
use kyvera_core.Storage.Db.{Sled, Codec, KyveraDb, Works, Lossless, AllEntries}
use kyvera_core.Storage.Store.Laws.{Laws}
use kyvera_core.Storage.AccountStore.Database.{
  decode_account, decode_entries, list_accounts, get_account, save_account, delete_account,
  get_metadata, set_metadata, db_store,
}

module _ ⦃sled : Sled⦄ ⦃codec : Codec Account⦄ (works : Works sled)
    (lossless : Lossless codec) where
  open works use {
    find, put, drop, entries, iter_ok, entries-put, entries-drop, get_ok, insert_ok, remove_ok,
    find-put, find-drop,
  }
  open lossless use {encode, to_vec_ok, from_slice_ok}

  -- The account that stands in the tree at an address.
  unfoldable pub account_at : KyveraDb sled → Text → Option Account
  account_at db a = elim (find db.accounts a) [ none ↦ none | some bytes ↦ codec.from_slice bytes ]

  -- The bytes under an address, if any, decode to an account with that address.
  abbrev pub DecodesAt : Text → Option Text → Type 0
  DecodesAt a none = Unit
  DecodesAt a (some bytes) = (x : Account) × (codec.from_slice bytes ≡ some x) × (x.address ≡ a)

  abbrev pub DecodesEntry : Text × Text → Type 0
  DecodesEntry (key, value) = (x : Account) × (codec.from_slice value ≡ some x)

  -- The accounts that the values stand for.
  unfoldable pub accounts_of : List (Text × Text) → List Account
  accounts_of [] = []
  accounts_of ((key, value) ∷ rest) =
      let others = accounts_of rest in
      elim (codec.from_slice value) [ none ↦ others | some x ↦ x ∷ others ]

  -- Every record of the account tree decodes to an account with the key as its address.
  pub record Decodes (db : KyveraDb sled) : Type 0 where
    pub at : (a : Text) → DecodesAt a (find db.accounts a)
    pub all : AllEntries DecodesEntry (entries db.accounts)

  abbrev pub saved : Account → KyveraDb sled → KyveraDb sled
  saved x db = record db { accounts = put db.accounts x.address (encode x) }

  abbrev pub deleted : Text → KyveraDb sled → KyveraDb sled
  deleted a db = record db { accounts = drop db.accounts a }

  abbrev pub noted : Text → Text → KyveraDb sled → KyveraDb sled
  noted k v db = record db { metadata = put db.metadata k v }

  decode_account_ok :
      (a : Text) (found : Option Text)
      → DecodesAt a found
      → decode_account found ≡ ok (elim found [ none ↦ none | some bytes ↦ codec.from_slice bytes ])
  unfolding decode_account
  decode_account_ok a none d = refl
  decode_account_ok a (some bytes) (x, e, k) = rw (e, decode_account)

  pub get_account_ok :
      (db : KyveraDb sled) (a : Text) → Decodes db → get_account a db ≡ (ok (account_at db a), db)
  unfolding account_at
  get_account_ok db a wf =
      let d = decode_account_ok a (find db.accounts a) (wf.at a) in
      unfold get_account in rw (get_ok db.accounts a) (rw d)

  pub save_account_ok : (db : KyveraDb sled) (x : Account) → save_account x db ≡ (ok tt, saved x db)
  unfolding save_account
  save_account_ok db x = rw (to_vec_ok x, insert_ok db.accounts x.address (encode x))

  pub delete_account_ok :
      (db : KyveraDb sled) (a : Text) → delete_account a db ≡ (ok tt, deleted a db)
  unfolding delete_account
  delete_account_ok db a = rw (remove_ok db.accounts a)

  pub get_metadata_ok :
      (db : KyveraDb sled) (k : Text) → get_metadata k db ≡ (ok (find db.metadata k), db)
  unfolding get_metadata
  get_metadata_ok db k = rw (get_ok db.metadata k)

  pub set_metadata_ok :
      (db : KyveraDb sled) (k v : Text) → set_metadata k v db ≡ (ok tt, noted k v db)
  unfolding set_metadata
  set_metadata_ok db k v = rw (insert_ok db.metadata k v)

  decode_entries_ok :
      (pairs : List (Text × Text))
      → AllEntries DecodesEntry pairs
      → decode_entries (map some pairs) ≡ ok (accounts_of pairs)
  unfolding decode_entries accounts_of
  decode_entries_ok [] all = refl
  decode_entries_ok ((key, value) ∷ rest) ((x, e), all) =
      ground (arith, e, decode_entries_ok rest all)

  pub list_accounts_ok :
      (db : KyveraDb sled)
      → Decodes db
      → list_accounts db ≡ (ok (accounts_of (entries db.accounts)), db)
  unfolding list_accounts
  list_accounts_ok db wf =
      rw (iter_ok db.accounts) (rw (decode_entries_ok (entries db.accounts) wf.all))

  DecodesAt-if :
      (a b : Text) (new old : Option Text)
      → (b ≡ a → DecodesAt a new)
      → DecodesAt a old
      → DecodesAt a (if text_eq b a then new else old)
  DecodesAt-if a b new old hit miss = elim (Bool-cases (text_eq b a)) [
    | inl same ↦ rw same (hit (text_eq_sound b a same))
    | inr other ↦ rw other miss
  ]

  pub saved-Decodes : (db : KyveraDb sled) (x : Account) → Decodes db → Decodes (saved x db)
  saved-Decodes db x wf = record {
    at = λ a. rw (find-put db.accounts x.address (encode x) a) (
        DecodesAt-if a x.address (some (encode x)) (find db.accounts a)
          (λ same. (x, from_slice_ok x, same)) (wf.at a));
    all = entries-put DecodesEntry db.accounts x.address (encode x) wf.all (x, from_slice_ok x);
  }

  pub deleted-Decodes : (db : KyveraDb sled) (b : Text) → Decodes db → Decodes (deleted b db)
  deleted-Decodes db b wf = record {
    at = λ a.
        rw (find-drop db.accounts b a)
          (DecodesAt-if a b none (find db.accounts a) (λ same. tt) (wf.at a));
    all = entries-drop DecodesEntry db.accounts b wf.all;
  }

  pub account_at-saved :
      (db : KyveraDb sled) (x : Account) (a : Text)
      → account_at (saved x db) a ≡ (if text_eq x.address a then some x else account_at db a)
  unfolding account_at
  account_at-saved db x a =
      ground (arith, find-put db.accounts x.address (encode x) a, from_slice_ok x)

  pub account_at-deleted :
      (db : KyveraDb sled) (b a : Text)
      → account_at (deleted b db) a ≡ (if text_eq b a then none else account_at db a)
  unfolding account_at
  account_at-deleted db b a = ground (arith, find-drop db.accounts b a)

  decoded_keyed :
      (a : Text) (found : Option Text) (x : Account)
      → DecodesAt a found
      → elim found [ none ↦ none | some bytes ↦ codec.from_slice bytes ] ≡ some x
      → x.address ≡ a
  decoded_keyed a none x d e = cc
  decoded_keyed a (some bytes) x (y, d, k) e =
      let same : x ≡ y = cc in ap (λ z. Account.address z) same ∙ k

  pub account_at_keyed :
      (db : KyveraDb sled) (a : Text) (x : Account)
      → Decodes db
      → account_at db a ≡ some x
      → x.address ≡ a
  unfolding account_at
  account_at_keyed db a x wf e = decoded_keyed a (find db.accounts a) x (wf.at a) e

  -- With a tree store that behaves as documented and a lossless serialisation, on a database whose
  -- account records decode: saving an account succeeds, and reading any address afterwards gives the
  -- saved account at its own address and what was there before at every other.
  pub get_account-save_account :
      (db : KyveraDb sled) (x : Account) (a : Text)
      → Decodes db
      → (save_account x db ≡ (ok tt, saved x db))
        × (get_account a (saved x db) ≡ (
            if text_eq x.address a
            then (ok (some x), saved x db)
            else ((get_account a db).0, saved x db)))
  get_account-save_account db x a wf = (
    save_account_ok db x,
    get_account_ok (saved x db) a (saved-Decodes db x wf)
        ∙ ground (arith, account_at-saved db x a, get_account_ok db a wf),
  )

  -- With a tree store that behaves as documented and a lossless serialisation, the calls on the
  -- database obey every law of the interface: each returns without an error on a database whose
  -- account records decode, a read sees the last write, and accounts and metadata stay apart.
  unfoldable pub db_store-Laws : Laws db_store
  unfolding account_at
  db_store-Laws = record {
    Wf = Decodes;
    account = account_at;
    metadata = λ db k. find db.metadata k;
    listed = λ db. accounts_of (entries db.accounts);
    saved = saved;
    deleted = deleted;
    noted = noted;
    get_account_ok = get_account_ok;
    save_account_ok = λ db x wf. save_account_ok db x;
    delete_account_ok = λ db a wf. delete_account_ok db a;
    list_accounts_ok = list_accounts_ok;
    get_metadata_ok = λ db k wf. get_metadata_ok db k;
    set_metadata_ok = λ db k v wf. set_metadata_ok db k v;
    saved-Wf = saved-Decodes;
    deleted-Wf = deleted-Decodes;
    noted-Wf = λ db k v wf. record { at = wf.at; all = wf.all };
    account-saved = λ db x a wf. account_at-saved db x a;
    account-deleted = λ db b a wf. account_at-deleted db b a;
    account-noted = λ db k v a wf. refl;
    metadata-saved = λ db x k wf. refl;
    metadata-deleted = λ db a k wf. refl;
    metadata-noted = λ db j v k wf. find-put db.metadata j v k;
    account_keyed = account_at_keyed;
  }
