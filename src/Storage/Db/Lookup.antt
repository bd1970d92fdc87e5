-- ===== src/Storage/Db/Lookup.antt =====
-- Look-ups in lists of entries after a write or a removal.
use kyvera_core.Prelude.{
  ◌≡◌, none, some, List, [], ◌∷◌, Text, text_eq, text_eq_iff, if◌then◌else◌, arith,
}
use kyvera_core.Storage.Db.{entry_at, put_entry, drop_entry}

pub entry_at-drop_entry :
    (t : List (Text × Text)) (k j : Text)
    → entry_at (drop_entry k t) j ≡ (if text_eq k j then none else entry_at t j)
unfolding entry_at drop_entry
entry_at-drop_entry [] k j = ground arith
entry_at-drop_entry ((i, v) ∷ t) k j =
    ground (arith, entry_at-drop_entry t k j, text_eq_iff i k, text_eq_iff k j, text_eq_iff i j)

pub entry_at-put_entry :
    (t : List (Text × Text)) (k v j : Text)
    → entry_at (put_entry k v t) j ≡ (if text_eq k j then some v else entry_at t j)
unfolding entry_at put_entry
entry_at-put_entry [] k v j = ground arith
entry_at-put_entry ((i, w) ∷ t) k v j =
    ground (arith, entry_at-put_entry t k v j, text_eq_iff i k, text_eq_iff k j, text_eq_iff i j)
