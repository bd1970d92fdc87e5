-- ===== src/Storage/Db/Ordered.antt =====
-- Lists of entries in the order of their keys, as a tree of `sled` yields them.
use kyvera_core.Prelude.{
  ◌≡◌, refl, sym, ◌∙◌, inl, inr, Bool, true, false, ◌&&◌, none, some, List, [], ◌∷◌, Text, text_eq,
  text_eq_refl, text_eq_iff, text_eq_sound, text_lt, text_lt_irrefl, text_lt_trans, arith,
  Bool-cases,
}
use kyvera_core.Storage.Db.{entry_at, put_entry, drop_entry, prefixed}

-- Every key is above a key, and the keys increase.
unfoldable pub above : Text → List (Text × Text) → Bool
above k [] = true
above k ((j, w) ∷ es) = text_lt k j && above k es

unfoldable pub increasing : List (Text × Text) → Bool
unfolding above
increasing [] = true
increasing ((j, w) ∷ es) = above j es && increasing es

pub above_trans :
    (k j : Text) (es : List (Text × Text))
    → text_lt k j ≡ true
    → above j es ≡ true
    → above k es ≡ true
unfolding above
above_trans k j [] h a = refl
above_trans k j ((i, w) ∷ es) h a = ground (arith, text_lt_trans k j i, above_trans k j es)

pub entry_at-above : (k : Text) (es : List (Text × Text)) → above k es ≡ true → entry_at es k ≡ none
unfolding entry_at above
entry_at-above k [] a = refl
entry_at-above k ((j, w) ∷ es) a =
    ground (arith, text_eq_iff j k, text_lt_irrefl k, entry_at-above k es)

pub drop_entry-above :
    (k : Text) (es : List (Text × Text)) → above k es ≡ true → drop_entry k es ≡ es
unfolding above drop_entry
drop_entry-above k [] a = refl
drop_entry-above k ((j, w) ∷ es) a =
    ground (arith, text_lt_irrefl k, text_eq_iff j k, drop_entry-above k es)

pub drop_entry_head :
    (k v : Text) (es : List (Text × Text)) → above k es ≡ true → drop_entry k ((k, v) ∷ es) ≡ es
unfolding drop_entry
drop_entry_head k v es a = rw (text_eq_refl k) (drop_entry-above k es a)

pub prefixed-drop_entry :
    (p k : Text) (es : List (Text × Text))
    → prefixed p (drop_entry k es) ≡ drop_entry k (prefixed p es)
unfolding prefixed drop_entry
prefixed-drop_entry p k [] = refl
prefixed-drop_entry p k ((j, w) ∷ es) = ground (arith, prefixed-drop_entry p k es)

pub above-prefixed :
    (k p : Text) (es : List (Text × Text)) → above k es ≡ true → above k (prefixed p es) ≡ true
unfolding above prefixed
above-prefixed k p [] a = refl
above-prefixed k p ((j, w) ∷ es) a = ground (arith, above-prefixed k p es)

pub increasing-prefixed :
    (p : Text) (es : List (Text × Text)) → increasing es ≡ true → increasing (prefixed p es) ≡ true
unfolding increasing prefixed
increasing-prefixed p [] inc = refl
increasing-prefixed p ((j, w) ∷ es) inc =
    ground (arith, above-prefixed j p es, increasing-prefixed p es)

above-put_entry :
    (i k v : Text) (es : List (Text × Text))
    → above i es ≡ true
    → text_lt i k ≡ true
    → above i (put_entry k v es) ≡ true
unfolding above put_entry
above-put_entry i k v [] a h = ground (arith, h)
above-put_entry i k v ((j, w) ∷ es) a h = ground (arith, h, above-put_entry i k v es)

pub text_lt_total : (s t : Text) → text_lt s t ≡ false → text_eq t s ≡ false → text_lt t s ≡ true
unfolding text_lt text_eq
text_lt_total [] [] h k = absurd (cc (k))
text_lt_total [] (d ∷ t) h k = absurd (cc (h))
text_lt_total (c ∷ s) [] h k = refl
text_lt_total (c ∷ s) (d ∷ t) h k = ground (arith, text_lt_total s t)

-- A write keeps the order.
pub increasing-put_entry :
    (k v : Text) (es : List (Text × Text))
    → increasing es ≡ true
    → increasing (put_entry k v es) ≡ true
unfolding increasing above put_entry
increasing-put_entry k v [] inc = refl
increasing-put_entry k v ((j, w) ∷ es) inc = elim (Bool-cases (text_eq j k)) [
  | inl same ↦ rw same (rw (sym (text_eq_sound j k same)) inc)
  | inr other ↦ elim (Bool-cases (text_lt k j)) [
    | inl before ↦ rw (other, before) (ground (arith, before, above_trans k j es))
    | inr after ↦
        rw (other, after)
          (ground (
            arith,
            above-put_entry j k v es,
            text_lt_total k j after other,
            increasing-put_entry k v es,
          ))
  ]
]

entry_at_nil : (k : Text) → entry_at [] k ≡ none
unfolding entry_at
entry_at_nil k = refl

entry_at_head : (k v : Text) (es : List (Text × Text)) → entry_at ((k, v) ∷ es) k ≡ some v
unfolding entry_at
entry_at_head k v es = rw (text_eq_refl k)

-- A key below the first one of an ordered list is not there.
entry_at_below :
    (k j w : Text) (es : List (Text × Text))
    → text_lt k j ≡ true
    → increasing ((j, w) ∷ es) ≡ true
    → entry_at ((j, w) ∷ es) k ≡ none
unfolding increasing above
entry_at_below k j w es h inc =
    entry_at-above k ((j, w) ∷ es) (ground (arith, h, above_trans k j es h))

-- So two ordered lists with the same look-ups have the same first key,
first_not_below :
    (i v j w : Text) (es fs : List (Text × Text))
    → increasing ((j, w) ∷ fs) ≡ true
    → ((k : Text) → entry_at ((i, v) ∷ es) k ≡ entry_at ((j, w) ∷ fs) k)
    → text_lt i j ≡ false
first_not_below i v j w es fs inc same = elim (Bool-cases (text_lt i j)) [
  | inl before ↦ absurd (cc (entry_at_head i v es, entry_at_below i j w fs before inc, same i))
  | inr after ↦ after
]

-- and the same look-ups behind it.
rest_same :
    (i v w : Text) (es fs : List (Text × Text))
    → above i es ≡ true
    → above i fs ≡ true
    → ((k : Text) → entry_at ((i, v) ∷ es) k ≡ entry_at ((i, w) ∷ fs) k)
    → (k : Text) → entry_at es k ≡ entry_at fs k
unfolding entry_at
rest_same i v w es fs a b same k = elim (Bool-cases (text_eq i k)) [
  | inl hit ↦
      let e : i ≡ k = text_eq_sound i k hit in
      rw (sym e) (entry_at-above i es a ∙ sym (entry_at-above i fs b))
  | inr miss ↦ rw miss at (same k)
]

-- Two ordered lists with the same look-ups are the same list.
pub increasing_ext :
    (es fs : List (Text × Text))
    → increasing es ≡ true
    → increasing fs ≡ true
    → ((k : Text) → entry_at es k ≡ entry_at fs k)
    → es ≡ fs
unfolding increasing
increasing_ext [] [] inc inc' same = refl
increasing_ext [] ((j, w) ∷ fs) inc inc' same =
    absurd (cc (same j, entry_at_head j w fs, entry_at_nil j))
increasing_ext ((i, v) ∷ es) [] inc inc' same =
    absurd (cc (same i, entry_at_head i v es, entry_at_nil i))
increasing_ext ((i, v) ∷ es) ((j, w) ∷ fs) inc inc' same = elim (Bool-cases (text_eq j i)) [
  | inl hit ↦
      let e : j ≡ i = text_eq_sound j i hit in
      let inc'' = rw e at inc' in
      let same' : (k : Text) → entry_at ((i, v) ∷ es) k ≡ entry_at ((i, w) ∷ fs) k =
        λ k. rw e at same k in
      let value : some v ≡ some w = cc (same' i, entry_at_head i v es, entry_at_head i w fs) in
      let rest =
        increasing_ext es fs (ground arith) (ground arith)
          (rest_same i v w es fs (ground arith) (ground arith) same') in
      cc (e, value, rest)
  | inr other ↦ absurd (
      cc (
        first_not_below i v j w es fs inc' same,
        first_not_below j w i v fs es inc (λ k. sym (same k)),
        text_lt_total i j (first_not_below i v j w es fs inc' same) other,
      ))
]
