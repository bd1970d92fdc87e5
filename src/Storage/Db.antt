-- ===== src/Storage/Db.antt =====
-- src/storage/db.rs: the five trees of the database and the helpers on a tree. The crates `sled` and
-- `serde_json` are the parameters `Sled` and `Codec`; opening and flushing files is not modelled.
pub mod Lookup
pub mod Ordered
use kyvera_core.Prelude.{
  ℕ, Bool, true, false, text_lt, starts_with, Option, none, some, List, [], ◌∷◌, map, Text, ◌≡◌,
  Result, ok, err, text_eq, if◌then◌else◌,
}
use kyvera_core.Storage.Exec.{Fault, io_failed}

-- The trees of `sled`. Each call may fail: `none` is an error of `sled`.
pub record Sled : Type 1 where
  pub Tree : Type 0
  pub insert : Tree → Text → Text → Option Tree
  pub get : Tree → Text → Option (Option Text)
  pub remove : Tree → Text → Option Tree
  pub contains_key : Tree → Text → Option Bool
  pub iter : Tree → List (Option (Text × Text))
  pub scan_prefix : Tree → Text → List (Option (Text × Text))
  pub len : Tree → ℕ

-- `serde_json` at a type: `none` is an error of `serde_json`.
pub record Codec (A : Type 0) : Type 0 where
  pub to_vec : A → Option Text
  pub from_slice : Text → Option A

pub record KyveraDb (sled : Sled) : Type 0 where
  pub blocks_by_hash : sled.Tree
  pub blocks_by_height : sled.Tree
  pub accounts : sled.Tree
  pub transactions : sled.Tree
  pub metadata : sled.Tree

-- `map_err(|e| ..)`.
abbrev pub or_fault : {A : Type 0} → Option A → Fault → Result Fault A
or_fault none e = err e
or_fault (some a) e = ok a

module _ ⦃sled : Sled⦄ where
  unfoldable pub write : sled.Tree → Text → Text → Result Fault sled.Tree
  write tree key value = or_fault (sled.insert tree key value) io_failed

  unfoldable pub read : sled.Tree → Text → Result Fault (Option Text)
  read tree key = or_fault (sled.get tree key) io_failed

  unfoldable pub delete : sled.Tree → Text → Result Fault sled.Tree
  delete tree key = or_fault (sled.remove tree key) io_failed

  unfoldable pub exists : sled.Tree → Text → Result Fault Bool
  exists tree key = or_fault (sled.contains_key tree key) io_failed

  unfoldable pub count : sled.Tree → ℕ
  count tree = sled.len tree

-- Every entry has a property.
abbrev pub AllEntries : (Text × Text → Type 0) → List (Text × Text) → Type 0
AllEntries P [] = Unit
AllEntries P (e ∷ entries) = P e × AllEntries P entries

-- The entries of a tree as a list: the value at a key, and an entry written or removed. A new key
-- stands before the first greater one.
unfoldable pub entry_at : List (Text × Text) → Text → Option Text
entry_at [] k = none
entry_at ((j, v) ∷ es) k = let rest = entry_at es k in if text_eq j k then some v else rest

unfoldable pub put_entry : Text → Text → List (Text × Text) → List (Text × Text)
put_entry k v [] = (k, v) ∷ []
put_entry k v ((j, w) ∷ es) =
    let rest = put_entry k v es in
    if text_eq j k
    then (k, v) ∷ es
    else if text_lt k j
    then (k, v) ∷ ((j, w) ∷ es)
    else (j, w) ∷ rest

unfoldable pub drop_entry : Text → List (Text × Text) → List (Text × Text)
drop_entry k [] = []
drop_entry k ((j, w) ∷ es) =
    let rest = drop_entry k es in if text_eq j k then rest else (j, w) ∷ rest

unfoldable pub prefixed : Text → List (Text × Text) → List (Text × Text)
prefixed p [] = []
prefixed p ((j, w) ∷ es) =
    let rest = prefixed p es in if starts_with j p then (j, w) ∷ rest else rest

-- The documented behaviour of a `sled` tree whose disk does not fail: an ordered map from
-- keys to values, whose iteration yields its entries and whose prefix scan those with the prefix.
pub record Works (sled : Sled) : Type 1 where
  pub find : sled.Tree → Text → Option Text
  pub put : sled.Tree → Text → Text → sled.Tree
  pub drop : sled.Tree → Text → sled.Tree
  pub entries : sled.Tree → List (Text × Text)
  pub get_ok : (t : sled.Tree) (k : Text) → sled.get t k ≡ some (find t k)
  pub insert_ok : (t : sled.Tree) (k v : Text) → sled.insert t k v ≡ some (put t k v)
  pub remove_ok : (t : sled.Tree) (k : Text) → sled.remove t k ≡ some (drop t k)
  pub iter_ok : (t : sled.Tree) → sled.iter t ≡ map some (entries t)
  pub scan_ok :
      (t : sled.Tree) (p : Text) → sled.scan_prefix t p ≡ map some (prefixed p (entries t))
  pub contains_ok :
      (t : sled.Tree) (k : Text)
      → sled.contains_key t k ≡ some (elim (find t k) [ none ↦ false | some v ↦ true ])
  pub entry_at-entries : (t : sled.Tree) (k : Text) → entry_at (entries t) k ≡ find t k
  pub put_entry-entries :
      (t : sled.Tree) (k v : Text) → entries (put t k v) ≡ put_entry k v (entries t)
  pub drop_entry-entries :
      (t : sled.Tree) (k : Text) → entries (drop t k) ≡ drop_entry k (entries t)
  pub find-put :
      (t : sled.Tree) (k v j : Text)
      → find (put t k v) j ≡ (if text_eq k j then some v else find t j)
  pub find-drop :
      (t : sled.Tree) (k j : Text) → find (drop t k) j ≡ (if text_eq k j then none else find t j)
  pub entries-put :
      (P : Text × Text → Type 0) (t : sled.Tree) (k v : Text)
      → AllEntries P (entries t)
      → P (k, v)
      → AllEntries P (entries (put t k v))
  pub entries-drop :
      (P : Text × Text → Type 0) (t : sled.Tree) (k : Text)
      → AllEntries P (entries t)
      → AllEntries P (entries (drop t k))

-- The documented behaviour of `serde_json` on the types of this crate: a round trip.
pub record Lossless {A : Type 0} (codec : Codec A) : Type 0 where
  pub encode : A → Text
  pub to_vec_ok : (a : A) → codec.to_vec a ≡ some (encode a)
  pub from_slice_ok : (a : A) → codec.from_slice (encode a) ≡ some a
