-- ===== src/Storage/StateRoot/Order.antt =====
-- `Vec::sort` forgets the order of what it sorts, so the state root does not depend on the order
-- in which the accounts are read.
use kyvera_core.Prelude.{
  ◌≡◌, true, refl, sym, ap, ◌∙◌, inl, inr, Option, none, some, List, [], ◌∷◌, map, Text, Result, ok,
  err, is_empty, text_eq_iff, text_lt_irrefl, text_lt_trans, arith, Result-cases, ◌>>=◌,
}
use mathlib.Core.List.{Permᴰ}
use mathlib.Core.List.Permᴰ
use kyvera_core.Types.Account.{Account}
use kyvera_core.Chain.Hash.{Hasher}
use kyvera_core.Storage.Exec.{Fault, io_failed}
use kyvera_core.Storage.Db.{Sled, Codec, KyveraDb, entry_at}
use kyvera_core.Storage.Db.Ordered.{text_lt_total, increasing, increasing_ext}
use kyvera_core.Storage.StateRoot.{
  insert_sorted, sort, account_hash, account_hashes, root_of, compute_state_root,
}

-- Two insertions may be exchanged.
insert_sorted_swap :
    (s t : Text) (ts : List Text)
    → insert_sorted s (insert_sorted t ts) ≡ insert_sorted t (insert_sorted s ts)
unfolding insert_sorted
insert_sorted_swap s t [] = ground (
  arith,
  text_lt_total s t,
  text_lt_total t s,
  text_eq_iff s t,
  text_eq_iff t s,
  text_lt_irrefl s,
  text_lt_trans s t s,
)
insert_sorted_swap s t (u ∷ ts) = ground (
  arith,
  insert_sorted_swap s t ts,
  text_lt_total s t,
  text_lt_total t s,
  text_eq_iff s t,
  text_eq_iff t s,
  text_lt_irrefl s,
  text_lt_trans s t s,
  text_lt_trans s u t,
  text_lt_trans t u s,
  text_lt_trans u s t,
  text_lt_trans u t s,
)

-- Lists with the same elements have the same sorted list.
sort-Perm : {ss ts : List Text} → Permᴰ ss ts → sort ss ≡ sort ts
unfolding sort
sort-Perm Permᴰ.nil = refl
sort-Perm (Permᴰ.cons {b = b} e p) = rw e (ap (insert_sorted b) (sort-Perm p))
sort-Perm (Permᴰ.swap {a' = a'} {b' = b'} {l = l} e f) =
    rw (e, f) (insert_sorted_swap b' a' (sort l))
sort-Perm (Permᴰ.trans p q) = sort-Perm p ∙ sort-Perm q

is_empty-Perm : {ss ts : List Text} → Permᴰ ss ts → is_empty ss ≡ is_empty ts
unfolding is_empty
is_empty-Perm Permᴰ.nil = refl
is_empty-Perm (Permᴰ.cons e p) = refl
is_empty-Perm (Permᴰ.swap e f) = refl
is_empty-Perm (Permᴰ.trans p q) = is_empty-Perm p ∙ is_empty-Perm q

module _ ⦃sled : Sled⦄ ⦃codec : Codec Account⦄ ⦃h : Hasher⦄ where
  abbrev entry_hash : Option (Text × Text) → Result Fault Text
  entry_hash none = err io_failed
  entry_hash (some (key, value)) = account_hash key value

  account_hashes-cons :
      (e : Option (Text × Text)) (es : List (Option (Text × Text)))
      → account_hashes (e ∷ es)
        ≡ (do hash ← entry_hash e; hashes ← account_hashes es; ok (hash ∷ hashes))
  unfolding account_hashes
  account_hashes-cons none es = refl
  account_hashes-cons (some (key, value)) es = refl

  -- The hashes of a list that could be read are that of its head and those of the rest.
  hashed_cons :
      (e : Option (Text × Text)) (es : List (Option (Text × Text))) (hashes : List Text)
      → account_hashes (e ∷ es) ≡ ok hashes
      → (hash : Text) × (entry_hash e ≡ ok hash)
        × (later : List Text) × (account_hashes es ≡ ok later)
        × (hashes ≡ hash ∷ later)
  hashed_cons e es hashes read = elim (Result-cases (entry_hash e)) [
    | inl (hash, first) ↦ elim (Result-cases (account_hashes es)) [
      | inl (later, rest) ↦
          (hash, first, later, rest, cc (read, account_hashes-cons e es, first, rest))
      | inr (f, failed) ↦ absurd (cc (read, account_hashes-cons e es, first, failed))
    ]
    | inr (f, failed) ↦ absurd (cc (read, account_hashes-cons e es, failed))
  ]

  hashed :
      (e : Option (Text × Text)) (es : List (Option (Text × Text))) (hash : Text)
      (later : List Text)
      → entry_hash e ≡ ok hash
      → account_hashes es ≡ ok later
      → account_hashes (e ∷ es) ≡ ok (hash ∷ later)
  hashed e es hash later first rest = account_hashes-cons e es ∙ rw (first, rest) refl

  account_hashes-Perm :
      {es es' : List (Option (Text × Text))} (hashes : List Text)
      → Permᴰ es es'
      → account_hashes es ≡ ok hashes
      → (hashes' : List Text) × (account_hashes es' ≡ ok hashes') × Permᴰ hashes hashes'
  account_hashes-Perm hashes Permᴰ.nil read = (hashes, read, Permᴰ.refl hashes)
  account_hashes-Perm hashes (Permᴰ.cons {a = a} {b = b} {l₁ = es} {l₂ = es'} e p) read =
      let (hash, first, later, rest, same) = hashed_cons a es hashes read in
      let (later', rest', q) = account_hashes-Perm later p rest in
      (hash ∷ later', hashed b es' hash later' (rw e at first) rest', rw same (Permᴰ.cons refl q))
  account_hashes-Perm hashes (Permᴰ.swap {a = a} {b = b} {a' = a'} {b' = b'} {l = l} e f) read =
      let (hash, first, later, rest, same) = hashed_cons a (b ∷ l) hashes read in
      let (hash', second, last, rest', same') = hashed_cons b l later rest in
      (
        hash' ∷ hash ∷ last,
        hashed a' (b' ∷ l) hash' (hash ∷ last) (rw f at second)
            (hashed b' l hash last (rw e at first) rest'),
        rw (same, same') (Permᴰ.swap refl refl),
      )
  account_hashes-Perm hashes (Permᴰ.trans p q) read =
      let (hashes', read', p') = account_hashes-Perm hashes p read in
      let (hashes'', read'', q') = account_hashes-Perm hashes' q read' in
      (hashes'', read'', Permᴰ.trans p' q')

  root_of-Perm : {ss ts : List Text} → Permᴰ ss ts → root_of ss ≡ root_of ts
  unfolding root_of
  root_of-Perm p = rw (is_empty-Perm p, sort-Perm p) refl

  -- Two databases whose account trees list the same entries, each in an order of its own: if one
  -- has a state root, the other has the same.
  compute_state_root_order :
      (db db' : KyveraDb sled) (root : Text)
      → Permᴰ (sled.iter db.accounts) (sled.iter db'.accounts)
      → compute_state_root db ≡ ok root
      → compute_state_root db' ≡ ok root
  unfolding compute_state_root
  compute_state_root_order db db' root p e =
      elim (Result-cases (account_hashes (sled.iter db.accounts))) [
        | inl (hashes, read) ↦
            (let (hashes', read', q) = account_hashes-Perm hashes p read in
              let found : root_of hashes ≡ root = cc (rw read at e) in
              rw read' (ap ok (sym (root_of-Perm q) ∙ found)))
        | inr (f, failed) ↦ absurd (cc (rw failed at e))
      ]

  -- Two databases that hold the same bytes under the same addresses, where each account tree may list
  -- its entries in an order of its own: if one has a state root, the other has the same. The entries
  -- are given in the order of their addresses, each address once.
  pub compute_state_root_canonical :
      (db db' : KyveraDb sled) (es es' : List (Text × Text)) (root : Text)
      → Permᴰ (sled.iter db.accounts) (map some es)
      → Permᴰ (map some es') (sled.iter db'.accounts)
      → increasing es ≡ true
      → increasing es' ≡ true
      → ((a : Text) → entry_at es a ≡ entry_at es' a)
      → compute_state_root db ≡ ok root
      → compute_state_root db' ≡ ok root
  compute_state_root_canonical db db' es es' root p q inc inc' same e =
      let equal : es ≡ es' = increasing_ext es es' inc inc' same in
      compute_state_root_order db db' root (Permᴰ.trans p (rw equal q)) e
