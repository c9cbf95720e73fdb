-- ===== src/Toon/Lines.antt =====
-- The lines that src/utils/toon-encoder.ts yields. A generator is the list of the lines it yields, or
-- the error it ends with: its only caller spreads it into an array.
use b2_mcp.Base.{
  List, Option, [], all, false, if◌then◌else◌, length, map, none, some, suc, true, zero, ℕ, ◌&&◌,
  ◌++◌, ◌+◌, ◌∷◌,
}
use b2_mcp.Toon.Values.{
  Entries, Items, Text, Value, cons, elements, end, entries_of, entry, is_array_of_arrays,
  is_array_of_objects, is_array_of_primitives, is_object_record, items_of, keys, nil,
}
use b2_mcp.Toon.Surrogates.{Result, ok, ◌>>=◌}
use b2_mcp.Toon.Strings.{encode_and_join_primitives, encode_key, traverse}
use b2_mcp.Toon.Columns.{ToonFields, collect_row_leaves, extract_tabular_fields, format_header}

abbrev pub spaces : ℕ → Text
spaces zero = []
spaces (suc n) = 32 ∷ 32 ∷ spaces n

abbrev pub indented_line : ℕ → Text → Text
indented_line depth content = spaces depth ++ content

abbrev pub indented_list_item : ℕ → Text → Text
indented_list_item depth content = indented_line depth (45 ∷ 32 ∷ content)

-- The one line that some content gives.
abbrev pub one_line : (Text → Text) → Result Text → Result (List Text)
one_line place content = do c ← content; ok (place c ∷ [])

-- The lines of one generator after those of another.
abbrev pub and_lines : Result (List Text) → Result (List Text) → Result (List Text)
and_lines first rest = first >>= λ a. rest >>= λ b. ok (a ++ b)

unfoldable pub encode_inline_array_line : Items → Option Text → Result Text
encode_inline_array_line nil key = format_header 0 key none false
encode_inline_array_line (cons v xs) key = do
  header ← format_header (length (elements (cons v xs))) key none false
  cells ← encode_and_join_primitives (elements (cons v xs))
  ok (header ++ 32 ∷ cells)

-- `encodedKey: content`
abbrev pub key_and : Text → Result Text → Result Text
key_and key content = do k ← encode_key key; c ← content; ok (k ++ 58 ∷ 32 ∷ c)

abbrev pub key_colon : Text → Result Text
key_colon key = do k ← encode_key key; ok (k ++ 58 ∷ [])

unfoldable pub encode_keyed_entry_rows_lines : Entries → ToonFields → ℕ → Result (List Text)
encode_keyed_entry_rows_lines end fields depth = ok []
encode_keyed_entry_rows_lines (entry k v es) fields depth =
    let row = key_and k (encode_and_join_primitives (collect_row_leaves (entries_of v) fields)) in
    let rest = encode_keyed_entry_rows_lines es fields depth in
    if is_object_record v then and_lines (one_line (indented_line depth) row) rest else rest

unfoldable pub encode_keyed_object_lines :
    Option Text → Entries → ToonFields → ℕ → Result (List Text)
encode_keyed_object_lines key value fields depth =
    and_lines
      (one_line (indented_line depth) (format_header (length (keys value)) key (some fields) true))
      (encode_keyed_entry_rows_lines value fields (depth + 1))

-- The rows of a table: a line each.
unfoldable pub table_rows : List Entries → ToonFields → ℕ → Result (List Text)
table_rows rows fields depth =
    traverse
      (λ row. do
        cells ← encode_and_join_primitives (collect_row_leaves row fields)
        ok (indented_line depth cells))
      rows

unfoldable pub encode_array_of_objects_as_tabular_lines :
    Option Text → List Entries → ToonFields → ℕ → Result (List Text)
encode_array_of_objects_as_tabular_lines key rows fields depth =
    and_lines (one_line (indented_line depth) (format_header (length rows) key (some fields) false))
      (table_rows rows fields (depth + 1))

unfoldable pub encode_array_of_arrays_as_list_items_lines :
    Option Text → List Value → ℕ → Result (List Text)
encode_array_of_arrays_as_list_items_lines key arrays depth =
    and_lines (one_line (indented_line depth) (format_header (length arrays) key none false)) (
      traverse
        (λ v. do
          line ← encode_inline_array_line (items_of v) none
          ok (indented_list_item (depth + 1) line))
        arrays)

-- `key: []`, or `[]` without a key.
abbrev pub empty_array : Option Text → Result Text
empty_array none = ok (91 ∷ 93 ∷ [])
empty_array (some key) = do k ← encode_key key; ok (k ++ 58 ∷ 32 ∷ 91 ∷ 93 ∷ [])

-- The fields of the table that an array of objects makes, where it makes one.
abbrev pub table_fields : Items → Option ToonFields
table_fields xs =
    if is_array_of_objects xs then extract_tabular_fields (map entries_of (elements xs)) else none

-- `encodeArrayLines`, where `mixed` is what the items give as list items.
unfoldable pub encode_array_lines :
    Option Text → Items → ℕ → Result (List Text) → Result (List Text)
encode_array_lines key nil depth mixed = one_line (indented_line depth) (empty_array key)
encode_array_lines key (cons v xs) depth mixed =
    let items = cons v xs in
    if is_array_of_primitives items
    then one_line (indented_line depth) (encode_inline_array_line items key)
    else if is_array_of_arrays items
        && all (λ a. is_array_of_primitives (items_of a)) (elements items)
    then encode_array_of_arrays_as_list_items_lines key (elements items) depth
    else elim (table_fields items) [
      | some fields ↦
          encode_array_of_objects_as_tabular_lines key (map entries_of (elements items)) fields
            depth
      | none ↦
          and_lines
            (one_line (indented_line depth)
              (format_header (length (elements items)) key none false))
            mixed
    ]

-- An object that is no table: its key's line, and its own lines below.
abbrev pub under_key : (Text → Text) → Text → Result (List Text) → Result (List Text)
under_key place key below = and_lines (one_line place (key_colon key)) below

-- `encodeObjectAsListItemLines` at a first value that is an array, where `mixed` is what its items
-- give as list items.
unfoldable pub first_array_lines : Text → Items → ℕ → Result (List Text) → Result (List Text)
first_array_lines key nil depth mixed = one_line (indented_list_item depth) (empty_array (some key))
first_array_lines key (cons v xs) depth mixed =
    let items = cons v xs in
    elim (table_fields items) [
      | some fields ↦
          and_lines
            (one_line (indented_list_item depth)
              (format_header (length (elements items)) (some key) (some fields) false))
            (table_rows (map entries_of (elements items)) fields (depth + 2))
      | none ↦
          if is_array_of_primitives items
          then one_line (indented_list_item depth) (encode_inline_array_line items (some key))
          else and_lines
              (one_line (indented_list_item depth)
                (format_header (length (elements items)) (some key) none false))
              mixed
    ]
