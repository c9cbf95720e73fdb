-- ===== src/Toon/Document.antt =====
-- The document that src/utils/toon-encoder.ts gives is its lines, joined so that they can be told
-- apart again.
use b2_mcp.Base.{
  Bool, List, Option, Option-cases, [], all, false, if◌then◌else◌, inl, inr, length, map, none,
  refl, some, true, ℕ, ◌&&◌, ◌+◌, ◌∷◌,
}
use b2_mcp.Toon.Values.{
  Entries, Items, Text, Value, arr, bool, cons, elements, end, entries_of, entry,
  is_array_of_arrays, is_array_of_primitives, items_of, keys, nil, null, num, obj, str, undefined,
}
use b2_mcp.Toon.Surrogates.{Result}
use b2_mcp.Toon.Strings.{encode_primitive}
use b2_mcp.Toon.Columns.{ToonFields, extract_keyed_tabular_fields, format_header}
use b2_mcp.Toon.Lines.{
  and_lines, encode_array_lines, encode_array_of_objects_as_tabular_lines,
  encode_keyed_entry_rows_lines, encode_keyed_object_lines, first_array_lines, indented_line,
  indented_list_item, key_and, one_line, table_fields, table_rows,
}
use b2_mcp.Toon.Breaks.{HasNumbers, HasNumbersEntries, HasNumbersItems, primitive-NoBreak}
use b2_mcp.Toon.Headers.{header-NoBreak}
use b2_mcp.Toon.Framed.{
  AreLines, IsPlace, and_lines-AreLines, arrays-AreLines, elements-HasNumbers, empty_array-NoBreak,
  inline-NoBreak, item-NoBreak, key_and-NoBreak, keyed_rows-AreLines, line-NoBreak,
  one_line-AreLines, rows-HasNumbers, table_rows-AreLines, under_key-AreLines,
}
use b2_mcp.Toon.Encoder.{
  encode_key_value_pair_lines, encode_list_item_value_lines, encode_mixed_items,
  encode_object_as_list_item_lines, encode_object_lines, first_entry_lines,
}

-- The branches of an array that is no empty one.
module _ (v : Value) (xs : Items) (h : HasNumbersItems (cons v xs)) where
  table-AreLines :
      (place : Text → Text) (n : ℕ) (key : Option Text) (fields : ToonFields) (depth : ℕ)
      → IsPlace place
      → AreLines (
          and_lines
            (one_line place (format_header n key (some fields) false))
            (table_rows (map entries_of (elements (cons v xs))) fields depth))
  table-AreLines place n key fields depth p =
      let vs = elements (cons v xs) in
      and_lines-AreLines _ _
        (one_line-AreLines place _ p (header-NoBreak n key (some fields) false))
        (table_rows-AreLines (map entries_of vs) fields depth
          (rows-HasNumbers vs (elements-HasNumbers (cons v xs) h)))

  mixed-AreLines :
      (place : Text → Text) (key : Option Text) (mixed : Result (List Text))
      → IsPlace place
      → AreLines mixed
      → AreLines (
          and_lines
            (one_line place (format_header (length (elements (cons v xs))) key none false))
            mixed)
  mixed-AreLines place key mixed p m =
      and_lines-AreLines _ _
        (one_line-AreLines place _ p
          (header-NoBreak (length (elements (cons v xs))) key none false))
        m

if-AreLines :
    (b : Bool) (r s : Result (List Text)) → AreLines r → AreLines s → AreLines (if b then r else s)
if-AreLines true r s h k = h
if-AreLines false r s h k = k

pub array-AreLines :
    (key : Option Text) (xs : Items) (depth : ℕ) (mixed : Result (List Text))
    → HasNumbersItems xs
    → AreLines mixed
    → AreLines (encode_array_lines key xs depth mixed)
unfolding encode_array_lines encode_array_of_objects_as_tabular_lines
array-AreLines key nil depth mixed h m =
    one_line-AreLines (indented_line depth) _ (line-NoBreak depth) (empty_array-NoBreak key)
array-AreLines key (cons v xs) depth mixed h m =
    if-AreLines (is_array_of_primitives (cons v xs)) _ _
      (one_line-AreLines (indented_line depth) _ (line-NoBreak depth)
        (inline-NoBreak (cons v xs) key h))
      (if-AreLines
        (is_array_of_arrays (cons v xs)
          && all (λ a. is_array_of_primitives (items_of a)) (elements (cons v xs)))
        _ _ (arrays-AreLines key (elements (cons v xs)) depth (elements-HasNumbers (cons v xs) h))
        (elim (Option-cases (table_fields (cons v xs))) [
          | inl no_table ↦
              rw no_table
                (mixed-AreLines v xs h (indented_line depth) key mixed (line-NoBreak depth) m)
          | inr (fields, table) ↦ rw table (
              table-AreLines v xs h (indented_line depth) _ key fields (depth + 1)
                (line-NoBreak depth))
        ]))

first_array-AreLines :
    (key : Text) (xs : Items) (depth : ℕ) (mixed : Result (List Text))
    → HasNumbersItems xs
    → AreLines mixed
    → AreLines (first_array_lines key xs depth mixed)
unfolding first_array_lines
first_array-AreLines key nil depth mixed h m =
    one_line-AreLines (indented_list_item depth) _ (item-NoBreak depth)
      (empty_array-NoBreak (some key))
first_array-AreLines key (cons v xs) depth mixed h m =
    elim (Option-cases (table_fields (cons v xs))) [
      | inl no_table ↦
          rw (no_table, first_array_lines)
            (if-AreLines (is_array_of_primitives (cons v xs)) _ _
              (one_line-AreLines (indented_list_item depth) _ (item-NoBreak depth)
                (inline-NoBreak (cons v xs) (some key) h))
              (mixed-AreLines v xs h (indented_list_item depth) (some key) mixed
                (item-NoBreak depth) m))
      | inr (fields, table) ↦
          rw (table, first_array_lines)
            (table-AreLines v xs h (indented_list_item depth) _ (some key) fields (depth + 2)
              (item-NoBreak depth))
    ]

-- An object under its key: a table of its entries, or its own lines.
pub object-AreLines :
    (place : Text → Text) (key : Option Text) (es : Entries) (fields : ToonFields) (depth : ℕ)
    → IsPlace place
    → HasNumbersEntries es
    → AreLines (
        and_lines
          (one_line place (format_header (length (keys es)) key (some fields) true))
          (encode_keyed_entry_rows_lines es fields depth))
object-AreLines place key es fields depth p h =
    and_lines-AreLines _ _
      (one_line-AreLines place _ p (header-NoBreak (length (keys es)) key (some fields) true))
      (keyed_rows-AreLines es fields depth h)

scalar-AreLines :
    (place : Text → Text) (key : Text) (v : Value)
    → IsPlace place
    → HasNumbers v
    → AreLines (one_line place (key_and key (encode_primitive v)))
scalar-AreLines place key v p h =
    one_line-AreLines place _ p (key_and-NoBreak key _ (primitive-NoBreak v h))

mutual
  unfolding encode_object_lines encode_key_value_pair_lines encode_mixed_items
      encode_list_item_value_lines encode_object_as_list_item_lines first_entry_lines
      encode_keyed_object_lines

  pub entries-AreLines :
      (es : Entries) (depth : ℕ) → HasNumbersEntries es → AreLines (encode_object_lines es depth)
  entries-AreLines end depth h = tt
  entries-AreLines (entry k v es) depth (p, h) =
      and_lines-AreLines _ _ (pair-AreLines k v depth p) (entries-AreLines es depth h)

  pair-AreLines :
      (key : Text) (v : Value) (depth : ℕ)
      → HasNumbers v
      → AreLines (encode_key_value_pair_lines key v depth)
  pair-AreLines key undefined depth h = scalar-AreLines _ key undefined (line-NoBreak depth) h
  pair-AreLines key null depth h = scalar-AreLines _ key null (line-NoBreak depth) h
  pair-AreLines key (bool b) depth h = scalar-AreLines _ key (bool b) (line-NoBreak depth) h
  pair-AreLines key (num s) depth h = scalar-AreLines _ key (num s) (line-NoBreak depth) h
  pair-AreLines key (str s) depth h = scalar-AreLines _ key (str s) (line-NoBreak depth) h
  pair-AreLines key (arr xs) depth h =
      array-AreLines (some key) xs depth _ h (items-AreLines xs (depth + 1) h)
  pair-AreLines key (obj es) depth h =
      let below = entries-AreLines es (depth + 1) h in
      elim (Option-cases (extract_keyed_tabular_fields es)) [
        | inl plain ↦
            rw (plain, encode_key_value_pair_lines)
              (under_key-AreLines (indented_line depth) key _ (line-NoBreak depth) below)
        | inr (fields, table) ↦
            rw (table, encode_key_value_pair_lines)
              (object-AreLines _ (some key) es fields (depth + 1) (line-NoBreak depth) h)
      ]

  pub items-AreLines :
      (xs : Items) (depth : ℕ) → HasNumbersItems xs → AreLines (encode_mixed_items xs depth)
  items-AreLines nil depth h = tt
  items-AreLines (cons v xs) depth (p, h) =
      and_lines-AreLines _ _ (item-AreLines v depth p) (items-AreLines xs depth h)

  item-AreLines :
      (v : Value) (depth : ℕ) → HasNumbers v → AreLines (encode_list_item_value_lines v depth)
  item-AreLines undefined depth h =
      one_line-AreLines _ _ (item-NoBreak depth) (primitive-NoBreak undefined h)
  item-AreLines null depth h = one_line-AreLines _ _ (item-NoBreak depth) (primitive-NoBreak null h)
  item-AreLines (bool b) depth h =
      one_line-AreLines _ _ (item-NoBreak depth) (primitive-NoBreak (bool b) h)
  item-AreLines (num s) depth h =
      one_line-AreLines _ _ (item-NoBreak depth) (primitive-NoBreak (num s) h)
  item-AreLines (str s) depth h =
      one_line-AreLines _ _ (item-NoBreak depth) (primitive-NoBreak (str s) h)
  item-AreLines (arr xs) depth h =
      let below = items-AreLines xs (depth + 1) h in
      if-AreLines (is_array_of_primitives xs) _ _
        (one_line-AreLines _ _ (item-NoBreak depth) (inline-NoBreak xs none h))
        (and_lines-AreLines _ _
          (one_line-AreLines _ _ (item-NoBreak depth)
            (header-NoBreak (length (elements xs)) none none false))
          below)
  item-AreLines (obj end) depth h = (line-NoBreak depth (45 ∷ []) refl, tt)
  item-AreLines (obj (entry k v es)) depth (p, h) =
      and_lines-AreLines _ _ (first-AreLines k v depth p) (entries-AreLines es (depth + 1) h)

  first-AreLines :
      (key : Text) (v : Value) (depth : ℕ) → HasNumbers v → AreLines (first_entry_lines key v depth)
  first-AreLines key undefined depth h = scalar-AreLines _ key undefined (item-NoBreak depth) h
  first-AreLines key null depth h = scalar-AreLines _ key null (item-NoBreak depth) h
  first-AreLines key (bool b) depth h = scalar-AreLines _ key (bool b) (item-NoBreak depth) h
  first-AreLines key (num s) depth h = scalar-AreLines _ key (num s) (item-NoBreak depth) h
  first-AreLines key (str s) depth h = scalar-AreLines _ key (str s) (item-NoBreak depth) h
  first-AreLines key (arr xs) depth h =
      first_array-AreLines key xs depth _ h (items-AreLines xs (depth + 2) h)
  first-AreLines key (obj es) depth h =
      let below = entries-AreLines es (depth + 2) h in
      elim (Option-cases (extract_keyed_tabular_fields es)) [
        | inl plain ↦
            rw (plain, first_entry_lines)
              (under_key-AreLines (indented_list_item depth) key _ (item-NoBreak depth) below)
        | inr (fields, table) ↦
            rw (table, first_entry_lines)
              (object-AreLines _ (some key) es fields (depth + 2) (item-NoBreak depth) h)
      ]
