-- ===== src/Canonjson.antt =====
-- internal/canonjson/canonjson.go: the bytes that are signed. Go's JSON decoder and the encoding of one
-- string are parameters; the tree between them and what is written for it are the code's.
pub mod Null
pub mod Order
mod Tests
use atreo_agent.Base.{
  ℕ, Bool, true, false, not, ◌&&◌, ◌||◌, Text, lit, ltb, eqb, List, [], ◌∷◌, ◌++◌, Option, none,
  some, if◌then◌else◌,
}
use atreo_agent.Base.Result.{Result, ok, failed, ◌>>=◌, require, need}

-- What the decoder with `UseNumber` makes: a number keeps its text. The keys of an object differ, since
-- Go reads it into a map.
mutual
  pub data Json : Type 0 where
    null : Json
    boolean : Bool → Json
    string number : Text → Json
    array : Items → Json
    object : Fields → Json

  pub data Items : Type 0 where
    nil : Items
    item : Json → Items → Items

  pub data Fields : Type 0 where
    end : Fields
    field : Text → Json → Fields → Fields

-- encoding/json: `decode` reads the first value of a document and says whether more follows
-- (`dec.More`); `encode_line` is `Encode` of a string without HTML escapes, its line end included.
pub record Codec : Type 0 where
  pub decode : Text → Option (Json × Bool)
  pub encode_line : Text → Option Text

pub data CanonError : Type 0 where
  null_forbidden decode_failed trailing_data encode_failed : CanonError

-- `sort.Strings` compares bytes.
unfoldable pub before : Text → Text → Bool
before [] ys = true
before (x ∷ xs) [] = false
before (x ∷ xs) (y ∷ ys) = ltb x y || (eqb x y && before xs ys)

-- One trailing newline is cut.
unfoldable pub cut_newline : Text → Text
cut_newline [] = []
cut_newline (c ∷ []) = if eqb c 10 then [] else c ∷ []
cut_newline (c ∷ d ∷ s) = c ∷ cut_newline (d ∷ s)

unfoldable pub write_string : Codec → Text → Result CanonError Text
unfolding cut_newline
write_string c s = do line ← need (c.encode_line s) encode_failed; ok (cut_newline line)

-- The parts with commas between them.
unfoldable pub commas : List Text → Text
commas [] = []
commas (p ∷ []) = p
commas (p ∷ q ∷ ps) = p ++ b',' ∷ commas (q ∷ ps)

-- A key with what writing its value comes to.
abbrev pub Entry : Type 0
Entry = Text × Result CanonError Text

unfoldable pub insert_entry : Entry → List Entry → List Entry
insert_entry e [] = e ∷ []
insert_entry e (f ∷ fs) = if before e.0 f.0 then e ∷ f ∷ fs else f ∷ insert_entry e fs

unfoldable pub write_entries : Codec → List Entry → Result CanonError (List Text)
write_entries c [] = ok []
write_entries c ((k, v) ∷ es) =
    let rest = write_entries c es in
    do key ← write_string c k; value ← v; parts ← rest; ok ((key ++ b':' ∷ value) ∷ parts)

unfoldable pub bracketed : ℕ → ℕ → List Text → Text
bracketed left right parts = left ∷ commas parts ++ right ∷ []

-- `writeValue`; the entries of an object are put in the order of the keys, then written.
unfoldable mutual
  pub write_value : Codec → Json → Result CanonError Text
  write_value c null = failed null_forbidden
  write_value c (boolean true) = ok (lit "true")
  write_value c (boolean false) = ok (lit "false")
  write_value c (string s) = write_string c s
  write_value c (number n) = ok n
  write_value c (array xs) = do parts ← write_items c xs; ok (bracketed b'[' b']' parts)
  write_value c (object fs) = do
    parts ← write_entries c (sorted_entries c fs)
    ok (bracketed b'{' b'}' parts)

  pub write_items : Codec → Items → Result CanonError (List Text)
  write_items c nil = ok []
  write_items c (item x xs) = do
    value ← write_value c x
    parts ← write_items c xs
    ok (value ∷ parts)

  pub sorted_entries : Codec → Fields → List Entry
  sorted_entries c end = []
  sorted_entries c (field k v fs) = insert_entry (k, write_value c v) (sorted_entries c fs)

-- `MarshalRaw`
unfoldable pub marshal_raw : Codec → Text → Result CanonError Text
marshal_raw c doc = do
  first ← need (c.decode doc) decode_failed
  _ ← require (not first.1) trailing_data
  write_value c first.0

-- `Marshal` of a value that json.Marshal writes as `first`; it fails only on values no caller has.
unfoldable pub marshal : Codec → (Json → Text) → Json → Result CanonError Text
marshal c first v = marshal_raw c (first v)
