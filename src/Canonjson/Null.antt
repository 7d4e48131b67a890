-- ===== src/Canonjson/Null.antt =====
-- internal/canonjson/canonjson.go: `null` is refused, and nothing else is.
use atreo_agent.Base.{
  Bool, true, false, not, ◌&&◌, ◌||◌, Text, List, [], ◌∷◌, none, ◌≡◌, ◌≢◌, refl, ◌∙◌, arith, inl,
  inr, Option-cases,
}
use atreo_agent.Base.Result.{Result, ok, failed, ◌>>=◌, Result-cases}
use atreo_agent.Canonjson.{
  Json, null, boolean, string, number, array, object, Items, nil, item, Fields, end, field, Codec,
  CanonError, Entry, insert_entry, write_entries, write_string, bracketed, write_value, write_items,
  sorted_entries,
}

unfoldable mutual
  pub has_null : Json → Bool
  has_null null = true
  has_null (array xs) = has_null_items xs
  has_null (object fs) = has_null_fields fs
  has_null _ = false

  pub has_null_items : Items → Bool
  has_null_items nil = false
  has_null_items (item x xs) = has_null x || has_null_items xs

  pub has_null_fields : Fields → Bool
  has_null_fields end = false
  has_null_fields (field k v fs) = has_null v || has_null_fields fs

abbrev pub succeeded : {E A : Type 0} → Result E A → Bool
succeeded (ok a) = true
succeeded (failed e) = false

all_ok : List Entry → Bool
all_ok [] = true
all_ok (e ∷ es) = succeeded e.1 && all_ok es

all_ok-insert_entry :
    (e : Entry) (es : List Entry) → all_ok (insert_entry e es) ≡ (succeeded e.1 && all_ok es)
unfolding all_ok insert_entry
all_ok-insert_entry e [] = refl
all_ok-insert_entry e (f ∷ es) = ground (arith, all_ok-insert_entry e es)

succeeded-bind :
    {E A B : Type 0} (r : Result E A) (f : A → B) → succeeded (r >>= λ a. ok (f a)) ≡ succeeded r
succeeded-bind (ok a) f = refl
succeeded-bind (failed e) f = refl

-- One more part, in a list of values and in one of entries.
and_part : (x y a b : Bool) → x ≡ not a → y ≡ not b → (x && y) ≡ not (a || b)
and_part x y a b h k = ground arith

next_part :
    {E : Type 0} (v : Result E Text) (rest : Result E (List Text)) (a b : Bool)
    → succeeded v ≡ not a
    → succeeded rest ≡ not b
    → succeeded (v >>= λ value. rest >>= λ parts. ok (value ∷ parts)) ≡ not (a || b)
next_part (failed e) rest true b h k = refl
next_part (failed e) rest false b h k = cc
next_part (ok value) rest false b h k = succeeded-bind rest (λ parts. value ∷ parts) ∙ k
next_part (ok value) rest true b h k = cc

module _ (c : Codec) (total : (s : Text) → c.encode_line s ≢ none) where
  write_string-ok : (s : Text) → succeeded (write_string c s) ≡ true
  unfolding write_string
  write_string-ok s = elim (Option-cases (c.encode_line s)) [
    | inl bad ↦ absurd (total s bad)
    | inr (line, e) ↦ rw (e, write_string) refl
  ]

  succeeded-write_entries : (es : List Entry) → succeeded (write_entries c es) ≡ all_ok es
  unfolding write_entries all_ok
  succeeded-write_entries [] = refl
  succeeded-write_entries ((key, v) ∷ es) =
      let rest = succeeded-write_entries es in
      elim (Result-cases (write_string c key)) [
        | inl (err, bad) ↦ absurd (refused err bad (write_string-ok key))
        | inr (k, good) ↦ elim (Result-cases v) [
          | inl (err, bad) ↦ rw (good, bad) refl
          | inr (value, fine) ↦ elim (Result-cases (write_entries c es)) [
            | inl (err, bad) ↦ rw (good, fine, bad) (rw bad at rest)
            | inr (parts, all) ↦ rw (good, fine, all) (rw all at rest)
          ]
        ]
      ]
    where
      refused :
          (err : CanonError)
          → write_string c key ≡ failed err
          → succeeded (write_string c key) ≡ true
          → ⊥
      refused err bad h = clash (rw bad at h)
        where
          clash : false ≡ true → ⊥
          clash e = cc

  mutual
    unfolding write_value write_items sorted_entries has_null all_ok

    value_null : (j : Json) → succeeded (write_value c j) ≡ not (has_null j)
    value_null null = refl
    value_null (boolean true) = refl
    value_null (boolean false) = refl
    value_null (string s) = write_string-ok s
    value_null (number n) = refl
    value_null (array xs) = succeeded-bind (write_items c xs) (bracketed b'[' b']') ∙ items_null xs
    value_null (object fs) =
        succeeded-bind (write_entries c (sorted_entries c fs)) (bracketed b'{' b'}')
        ∙ succeeded-write_entries (sorted_entries c fs)
        ∙ fields_null fs

    items_null : (xs : Items) → succeeded (write_items c xs) ≡ not (has_null_items xs)
    items_null nil = refl
    items_null (item x xs) =
        next_part (write_value c x) (write_items c xs) (has_null x) (has_null_items xs)
          (value_null x) (items_null xs)

    fields_null : (fs : Fields) → all_ok (sorted_entries c fs) ≡ not (has_null_fields fs)
    fields_null end = refl
    fields_null (field k v fs) =
        all_ok-insert_entry (k, write_value c v) (sorted_entries c fs)
        ∙ and_part (succeeded (write_value c v)) (all_ok (sorted_entries c fs)) (has_null v)
            (has_null_fields fs) (value_null v) (fields_null fs)

-- When the encoder writes every string, a tree is written exactly if it has no `null` at any depth.
pub write_value-has_null :
    (c : Codec) (j : Json)
    → ((s : Text) → c.encode_line s ≢ none)
    → succeeded (write_value c j) ≡ not (has_null j)
write_value-has_null c j total = value_null c total j
