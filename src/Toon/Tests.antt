-- ===== src/Toon/Tests.antt =====
-- Runs of the encoder of src/utils/toon-encoder.ts, some of them those of
-- tests/unit/toon-encoder.unit.test.ts, and the theorems at concrete values.
use b2_mcp.Base.{All, String, [], codes, refl, some, true, ◌↔◌, ◌∷◌, ◌≡◌}
use b2_mcp.Toon.Values.{Entries, Items, Text, Value, arr, cons, end, entry, nil, num, obj, str}
use b2_mcp.Toon.Surrogates.{
  assert_no_lone_surrogate, ok, surrogate_scan, thrown, unpaired_surrogate,
}
use b2_mcp.Toon.Utf16.{IsUtf16, assert_no_lone_surrogate_iff}
use b2_mcp.Toon.Strings.{
  encode_and_join_primitives, encode_key, encode_primitive, encode_string_literal, is_numeric_like,
  is_safe_unquoted,
}
use b2_mcp.Toon.Columns.{
  ToonFields, classify_column, collect_field, collect_row_leaves, column_fields,
  extract_keyed_tabular_fields, extract_tabular_fields, field_text, field_texts,
  format_field_segment, format_header, leaf, more, no_more,
}
use b2_mcp.Toon.Lines.{
  encode_array_lines, encode_keyed_entry_rows_lines, encode_keyed_object_lines, first_array_lines,
  table_rows,
}
use b2_mcp.Toon.Encoder.{
  encode_json_value, encode_key_value_pair_lines, encode_list_item_value_lines, encode_mixed_items,
  encode_object_as_list_item_lines, encode_object_lines, encode_toon, first_entry_lines,
}
use b2_mcp.Toon.Reader.{read_row}
use b2_mcp.Toon.Rows.{read_row-encode_and_join_primitives}
use b2_mcp.Toon.Frames.{encode_toon-split_lines, split_lines}
use b2_mcp.Toon.Fits.{FitsRow}
use b2_mcp.Toon.Tables.{extract_tabular_fields-fit}

abbrev number : String → Value
number s = num (codes s)

abbrev text : String → Value
text s = str (codes s)

-- { name, size }
abbrev file : String → String → Entries
file name size = entry (codes "name") (text name) (entry (codes "size") (number size) end)

abbrev files : Items
files = cons (obj (file "a" "1")) (cons (obj (file "b" "2")) nil)

-- { items: [{ files, note: "ok" }] }
abbrev nested_table : Value
nested_table = obj (
    entry (codes "items")
      (arr
        (cons (obj (entry (codes "files") (arr files) (entry (codes "note") (text "ok") end))) nil))
      end)

nested_table_lines :
    encode_json_value nested_table 0
    ≡ ok (
        codes "items[1]:"
        ∷ codes "  - files[2]{name,size}:"
        ∷ codes "      a,1"
        ∷ codes "      b,2"
        ∷ codes "    note: ok"
        ∷ [])
unfolding encode_json_value encode_object_lines encode_key_value_pair_lines encode_array_lines
    encode_mixed_items encode_list_item_value_lines encode_object_as_list_item_lines
    first_entry_lines first_array_lines table_rows extract_keyed_tabular_fields
    extract_tabular_fields column_fields classify_column collect_row_leaves collect_field
    format_header format_field_segment field_texts field_text encode_key assert_no_lone_surrogate
    encode_and_join_primitives encode_primitive encode_string_literal is_safe_unquoted
    is_numeric_like
nested_table_lines = refl

-- { lookup: { alpha: { size: 1 }, beta: { size: 2 } } }
abbrev keyed : Value
keyed = obj (
    entry (codes "lookup")
      (obj (
        entry (codes "alpha") (obj (entry (codes "size") (number "1") end))
          (entry (codes "beta") (obj (entry (codes "size") (number "2") end)) end)))
      end)

keyed_lines :
    encode_json_value keyed 0
    ≡ ok (codes "lookup[2:]{size}:" ∷ codes "  alpha: 1" ∷ codes "  beta: 2" ∷ [])
unfolding encode_json_value encode_object_lines encode_key_value_pair_lines
    encode_keyed_object_lines encode_keyed_entry_rows_lines extract_keyed_tabular_fields
    extract_tabular_fields column_fields classify_column collect_row_leaves collect_field
    format_header format_field_segment field_texts field_text encode_key assert_no_lone_surrogate
    encode_and_join_primitives encode_primitive
keyed_lines = refl

-- A text with a comma, a quote and a line break.
abbrev awkward : Text
awkward = 97 ∷ 44 ∷ 34 ∷ 10 ∷ []

awkward-IsUtf16 : IsUtf16 awkward
unfolding assert_no_lone_surrogate surrogate_scan
awkward-IsUtf16 = (assert_no_lone_surrogate_iff awkward "string value").0 refl

number-IsCell : is_numeric_like (codes "-1.5e+3") ≡ true
unfolding is_numeric_like
number-IsCell = refl

read_row-encode_and_join_primitives_example :
    (row : Text) × ((encode_and_join_primitives (str awkward ∷ number "-1.5e+3" ∷ []) ≡ ok row)
      × (read_row row ≡ some (str awkward ∷ number "-1.5e+3" ∷ [])))
read_row-encode_and_join_primitives_example =
    read_row-encode_and_join_primitives (str awkward) (number "-1.5e+3" ∷ [])
      (awkward-IsUtf16, (number-IsCell, tt))

-- U+1F600 in two units.
assert_no_lone_surrogate_iff_example :
    (assert_no_lone_surrogate (55357 ∷ 56832 ∷ []) "object key" ≡ ok tt)
    ↔ IsUtf16 (55357 ∷ 56832 ∷ [])
assert_no_lone_surrogate_iff_example =
    assert_no_lone_surrogate_iff (55357 ∷ 56832 ∷ []) "object key"

lone_surrogate :
    assert_no_lone_surrogate (98 ∷ 55296 ∷ []) "string value"
    ≡ thrown (unpaired_surrogate "string value" 55296 1)
unfolding assert_no_lone_surrogate surrogate_scan
lone_surrogate = refl

abbrev file_fields : ToonFields
file_fields = more (leaf (codes "name")) (more (leaf (codes "size")) no_more)

file_fields-found : extract_tabular_fields (file "a" "1" ∷ file "b" "2" ∷ []) ≡ some file_fields
unfolding extract_tabular_fields column_fields classify_column
file_fields-found = refl

extract_tabular_fields-fit_example : All (FitsRow file_fields) (file "a" "1" ∷ file "b" "2" ∷ [])
extract_tabular_fields-fit_example =
    extract_tabular_fields-fit (file "a" "1") (file "b" "2" ∷ []) file_fields
      (refl, (tt, (refl, (tt, tt)))) file_fields-found

one-IsNumber : is_numeric_like (codes "1") ≡ true
unfolding is_numeric_like
one-IsNumber = refl

two-IsNumber : is_numeric_like (codes "2") ≡ true
unfolding is_numeric_like
two-IsNumber = refl

encode_toon-split_lines_example :
    (document : Text) × ((encode_toon keyed ≡ ok document)
      × (split_lines document
          ≡ codes "lookup[2:]{size}:" ∷ codes "  alpha: 1" ∷ codes "  beta: 2" ∷ []))
encode_toon-split_lines_example =
    encode_toon-split_lines keyed (codes "lookup[2:]{size}:")
      (codes "  alpha: 1" ∷ codes "  beta: 2" ∷ [])
      (((one-IsNumber, tt), ((two-IsNumber, tt), tt)), tt) keyed_lines
