-- ===== src/Canonjson/Order.antt =====
-- internal/canonjson/canonjson.go: the order of an object's fields, at any depth, is not in the bytes.
use atreo_agent.Base.{Bool, true, false, Text, some, List, [], ◌∷◌, ◌≡◌, refl, ◌∙◌, ◌≢◌, arith}
use atreo_agent.Canonjson.{
  Json, array, object, marshal_raw, Items, nil, item, Fields, end, field, Codec, before, Entry,
  insert_entry, write_value, write_items, sorted_entries,
}

-- Two trees that differ in the order of fields alone.
mutual
  pub data Same : Json → Json → Type 0 where
    itself : (j : Json) → Same j j
    arrays : (xs ys : Items) → SameItems xs ys → Same (array xs) (array ys)
    objects : (fs gs : Fields) → SameFields fs gs → Same (object fs) (object gs)

  pub data SameItems : Items → Items → Type 0 where
    none_left : SameItems nil nil
    items :
        (x y : Json) (xs ys : Items)
        → Same x y
        → SameItems xs ys
        → SameItems (item x xs) (item y ys)

  pub data SameFields : Fields → Fields → Type 0 where
    no_more : SameFields end end
    fields :
        (k : Text) (v w : Json) (fs gs : Fields)
        → Same v w
        → SameFields fs gs
        → SameFields (field k v fs) (field k w gs)
    swap :
        (k j : Text) (v w : Json) (fs : Fields)
        → k ≢ j
        → SameFields (field k v (field j w fs)) (field j w (field k v fs))
    chain : (fs gs hs : Fields) → SameFields fs gs → SameFields gs hs → SameFields fs hs

before-total : (s t : Text) → before s t ≡ false → before t s ≡ true
unfolding before
before-total [] t h = cc
before-total (x ∷ s) [] h = refl
before-total (x ∷ s) (y ∷ t) h = ground (arith, before-total s t)

before-antisym : (s t : Text) → before s t ≡ true → before t s ≡ true → s ≡ t
unfolding before
before-antisym [] [] h g = refl
before-antisym [] (y ∷ t) h g = cc
before-antisym (x ∷ s) [] h g = cc
before-antisym (x ∷ s) (y ∷ t) h g = ground (arith, before-antisym s t)

before_trans : (s t r : Text) → before s t ≡ true → before t r ≡ true → before s r ≡ true
unfolding before
before_trans [] t r h g = refl
before_trans (x ∷ s) [] r h g = cc
before_trans (x ∷ s) (y ∷ t) [] h g = cc
before_trans (x ∷ s) (y ∷ t) (z ∷ r) h g = ground (arith, before_trans s t r)

-- Entries with different keys may be inserted in either order.
insert_entry-insert_entry :
    (d e : Entry) (es : List Entry)
    → d.0 ≢ e.0
    → insert_entry d (insert_entry e es) ≡ insert_entry e (insert_entry d es)
unfolding insert_entry
insert_entry-insert_entry d e [] n =
    ground (arith, before-total d.0 e.0, before-total e.0 d.0, before-antisym d.0 e.0)
insert_entry-insert_entry d e (f ∷ es) n = ground (
  arith,
  before-total d.0 e.0,
  before-total e.0 d.0,
  before-antisym d.0 e.0,
  before_trans d.0 e.0 f.0,
  before_trans e.0 d.0 f.0,
  insert_entry-insert_entry d e es n,
)

mutual
  unfolding write_value write_items sorted_entries

  value-Same : (c : Codec) (a b : Json) → Same a b → write_value c a ≡ write_value c b
  value-Same c a _ (itself j) = refl
  value-Same c _ _ (arrays xs ys h) = rw (items-Same c xs ys h) refl
  value-Same c _ _ (objects fs gs h) = rw (entries-Same c fs gs h) refl

  items-Same : (c : Codec) (xs ys : Items) → SameItems xs ys → write_items c xs ≡ write_items c ys
  items-Same c _ _ none_left = refl
  items-Same c _ _ (items x y xs ys h hs) =
      rw (value-Same c x y h) (rw (items-Same c xs ys hs) refl)

  entries-Same :
      (c : Codec) (fs gs : Fields) → SameFields fs gs → sorted_entries c fs ≡ sorted_entries c gs
  entries-Same c _ _ no_more = refl
  entries-Same c _ _ (fields k v w fs gs h hs) =
      rw (value-Same c v w h) (rw (entries-Same c fs gs hs) refl)
  entries-Same c _ _ (swap k j v w fs n) =
      insert_entry-insert_entry (k, write_value c v) (j, write_value c w) (sorted_entries c fs) n
  entries-Same c _ _ (chain fs gs hs p q) = entries-Same c fs gs p ∙ entries-Same c gs hs q

-- Trees that differ in the order of an object's fields alone, at any depth, are written as the same bytes,
-- or refused with the same error.
pub write_value-Same : (c : Codec) (a b : Json) → Same a b → write_value c a ≡ write_value c b
write_value-Same = value-Same

pub marshal_raw-Same :
    (c : Codec) (doc other : Text) (a b : Json) (more : Bool)
    → c.decode doc ≡ some (a, more)
    → c.decode other ≡ some (b, more)
    → Same a b
    → marshal_raw c other ≡ marshal_raw c doc
unfolding marshal_raw
marshal_raw-Same c doc other a b more ea eb same =
    rw (ea, eb, marshal_raw) (rw (write_value-Same c a b same) refl)
