-- ===== src/Canonjson/Tests.antt =====
-- The theorems on internal/canonjson/canonjson.go at two objects.
use atreo_agent.Base.{false, not, lit, [], ◌∷◌, ◌++◌, some, ◌≡◌, refl}
use atreo_agent.Base.Result.{ok}
use atreo_agent.Canonjson.{
  Json, array, item, nil, null, string, number, object, field, end, Codec, write_value,
  write_string, write_entries, sorted_entries, insert_entry, before, commas, bracketed, cut_newline,
}
use atreo_agent.Canonjson.Null.{has_null, succeeded, write_value-has_null}
use atreo_agent.Canonjson.Order.{Same, objects, swap, write_value-Same}

-- Strings without characters to escape.
abbrev codec : Codec
codec = record {
  decode = λ doc. some (string doc, false);
  encode_line = λ s. some (34 ∷ s ++ 34 ∷ 10 ∷ []);
}

abbrev left : Json
left = object (field (lit "ts") (number (lit "7")) (field (lit "app") (string (lit "x")) end))

abbrev right : Json
right = object (field (lit "app") (string (lit "x")) (field (lit "ts") (number (lit "7")) end))

same : Same left right
same = objects _ _ (swap (lit "ts") (lit "app") (number (lit "7")) (string (lit "x")) end (λ e. cc))

write_value-Same_example : write_value codec left ≡ write_value codec right
write_value-Same_example = write_value-Same codec left right same

written : write_value codec left ≡ ok (lit "{\"app\":\"x\",\"ts\":7}")
unfolding write_value write_string write_entries sorted_entries insert_entry before commas bracketed
    cut_newline
written = refl

write_value-has_null_example :
    succeeded (write_value codec (array (item left (item null nil))))
    ≡ not (has_null (array (item left (item null nil))))
write_value-has_null_example =
    write_value-has_null codec (array (item left (item null nil))) (λ s h. cc)
