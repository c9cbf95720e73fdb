-- ===== src/Toon/Encoder.antt =====
-- The recursion of src/utils/toon-encoder.ts over objects, arrays and list items.
use b2_mcp.Base.{List, [], false, if◌then◌else◌, length, none, some, true, ℕ, ◌++◌, ◌+◌, ◌∷◌}
use b2_mcp.Toon.Values.{
  Entries, Items, Text, Value, arr, cons, elements, end, entry, is_array_of_primitives, keys, nil,
  obj,
}
use b2_mcp.Toon.Strings.{encode_primitive}
use b2_mcp.Toon.Surrogates.{Result, ok, ◌>>=◌}
use b2_mcp.Toon.Columns.{extract_keyed_tabular_fields, format_header}
use b2_mcp.Toon.Lines.{
  and_lines, encode_array_lines, encode_inline_array_line, encode_keyed_entry_rows_lines,
  encode_keyed_object_lines, first_array_lines, indented_line, indented_list_item, key_and,
  one_line, under_key,
}

unfoldable mutual
  pub encode_object_lines : Entries → ℕ → Result (List Text)
  encode_object_lines end depth = ok []
  encode_object_lines (entry k v es) depth =
      and_lines (encode_key_value_pair_lines k v depth) (encode_object_lines es depth)

  pub encode_key_value_pair_lines : Text → Value → ℕ → Result (List Text)
  encode_key_value_pair_lines key (arr xs) depth =
      encode_array_lines (some key) xs depth (encode_mixed_items xs (depth + 1))
  encode_key_value_pair_lines key (obj es) depth =
      let below = encode_object_lines es (depth + 1) in
      elim (extract_keyed_tabular_fields es) [
        | some fields ↦ encode_keyed_object_lines (some key) es fields depth
        | none ↦ under_key (indented_line depth) key below
      ]
  encode_key_value_pair_lines key v depth =
      one_line (indented_line depth) (key_and key (encode_primitive v))

  pub encode_mixed_items : Items → ℕ → Result (List Text)
  encode_mixed_items nil depth = ok []
  encode_mixed_items (cons v xs) depth =
      and_lines (encode_list_item_value_lines v depth) (encode_mixed_items xs depth)

  pub encode_list_item_value_lines : Value → ℕ → Result (List Text)
  encode_list_item_value_lines (arr xs) depth =
      let below = encode_mixed_items xs (depth + 1) in
      if is_array_of_primitives xs
      then one_line (indented_list_item depth) (encode_inline_array_line xs none)
      else and_lines
          (one_line (indented_list_item depth)
            (format_header (length (elements xs)) none none false))
          below
  encode_list_item_value_lines (obj es) depth = encode_object_as_list_item_lines es depth
  encode_list_item_value_lines v depth = one_line (indented_list_item depth) (encode_primitive v)

  pub encode_object_as_list_item_lines : Entries → ℕ → Result (List Text)
  encode_object_as_list_item_lines end depth = ok (indented_line depth (45 ∷ []) ∷ [])
  encode_object_as_list_item_lines (entry k v es) depth =
      and_lines (first_entry_lines k v depth) (encode_object_lines es (depth + 1))

  -- The first entry of an object that is a list item.
  pub first_entry_lines : Text → Value → ℕ → Result (List Text)
  first_entry_lines key (arr xs) depth =
      first_array_lines key xs depth (encode_mixed_items xs (depth + 2))
  first_entry_lines key (obj es) depth =
      let below = encode_object_lines es (depth + 2) in
      elim (extract_keyed_tabular_fields es) [
        | some fields ↦
            and_lines
              (one_line (indented_list_item depth)
                (format_header (length (keys es)) (some key) (some fields) true))
              (encode_keyed_entry_rows_lines es fields (depth + 2))
        | none ↦ under_key (indented_list_item depth) key below
      ]
  first_entry_lines key v depth =
      one_line (indented_list_item depth) (key_and key (encode_primitive v))

-- A value that no text stands for yields no line; `undefined` is no value of the input.
unfoldable pub encode_json_value : Value → ℕ → Result (List Text)
encode_json_value (arr xs) depth =
    encode_array_lines none xs depth (encode_mixed_items xs (depth + 1))
encode_json_value (obj es) depth = elim (extract_keyed_tabular_fields es) [
  | some fields ↦ encode_keyed_object_lines none es fields depth
  | none ↦ encode_object_lines es depth
]
encode_json_value v depth = do
  text ← encode_primitive v
  ok (elim text [ [] ↦ [] | c ∷ s ↦ (c ∷ s) ∷ [] ])

-- `lines.join("\n")`
abbrev pub join_lines : List Text → Text
join_lines [] = []
join_lines (a ∷ []) = a
join_lines (a ∷ b ∷ rest) = a ++ 10 ∷ join_lines (b ∷ rest)

unfoldable pub encode_toon : Value → Result Text
encode_toon value = do lines ← encode_json_value value 0; ok (join_lines lines)
