-- ===== src/Toon/Columns.antt =====
-- Tabular form in src/utils/toon-encoder.ts: when the rows of an array, or the entries of an object,
-- share their fields, and the cells of each row.
use b2_mcp.Base.{
  Bool, List, Option, [], all, if◌then◌else◌, length, ltb, map, none, some, suc, zero, ℕ, ◌%◌, ◌&&◌,
  ◌++◌, ◌+◌, ◌/◌, ◌==◌, ◌∷◌,
}
use b2_mcp.Toon.Values.{
  Entries, Text, Value, end, entries_of, entry, get, has_own, is_non_empty_object_record,
  is_object_record, is_primitive, keys, obj, values,
}
use b2_mcp.Toon.Surrogates.{Result, ok, ◌>>=◌}
use b2_mcp.Toon.Strings.{encode_key, join_cells}

-- `ToonField`: a name alone, or a name with children.
mutual
  pub data ToonField : Type 0 where
    leaf : Text → ToonField
    nested : Text → ToonFields → ToonField

  pub data ToonFields : Type 0 where
    no_more : ToonFields
    more : ToonField → ToonFields → ToonFields

abbrev pub option_bind {ℓ κ} : {A : Type ℓ} {B : Type κ} → Option A → (A → Option B) → Option B
option_bind none f = none
option_bind (some a) f = f a

-- The loop over the rows: each has as many keys as the first, and each of the first one's.
abbrev pub has_keys_of : List Text → Entries → Bool
has_keys_of ks row = (length (keys row) == length ks) && all (λ k. has_own k row) ks

-- `extractTabularFields` after its loop over the columns, whose outcome it is given.
abbrev pub if_tabular : Entries → List Entries → Option ToonFields → Option ToonFields
if_tabular end rows columns = none
if_tabular (entry k v es) rows columns =
    if all (has_keys_of (k ∷ keys es)) (entry k v es ∷ rows) then columns else none

-- A column is the first row's value and those of the other rows: the recursion goes down the first
-- row, and reads the others at its keys.
unfoldable mutual
  pub column_fields : Entries → List Entries → Option ToonFields
  column_fields end rows = some no_more
  column_fields (entry k v es) rows =
      option_bind (classify_column k v (map (get k) rows))
        (λ f. option_bind (column_fields es rows) (λ fs. some (more f fs)))

  pub classify_column : Text → Value → List Value → Option ToonField
  classify_column name (obj es) vs =
      let rows = map entries_of vs in
      let children = if_tabular es rows (column_fields es rows) in
      if all is_non_empty_object_record (obj es ∷ vs)
      then option_bind children (λ fs. some (nested name fs))
      else none
  classify_column name v vs = if all is_primitive (v ∷ vs) then some (leaf name) else none

unfoldable pub extract_tabular_fields : List Entries → Option ToonFields
extract_tabular_fields [] = none
extract_tabular_fields (row ∷ rows) = if_tabular row rows (column_fields row rows)

unfoldable pub extract_keyed_tabular_fields : Entries → Option ToonFields
extract_keyed_tabular_fields es =
    let vs = values es in
    let fields = extract_tabular_fields (map entries_of vs) in
    if ltb (length vs) 2 then none else if all is_non_empty_object_record vs then fields else none

-- `collectLeafValues`, which appends to the leaves in the order of the fields.
abbrev pub field_name : ToonField → Text
field_name (leaf name) = name
field_name (nested name fs) = name

unfoldable mutual
  pub collect_row_leaves : Entries → ToonFields → List Value
  collect_row_leaves row no_more = []
  collect_row_leaves row (more f fs) =
      collect_field (get (field_name f) row) f ++ collect_row_leaves row fs

  pub collect_field : Value → ToonField → List Value
  collect_field v (leaf name) = v ∷ []
  collect_field v (nested name fs) =
      let inside = collect_row_leaves (entries_of v) fs in
      if is_object_record v then inside else v ∷ []

-- `String(length)`: the decimal digits, with fuel for one division each.
abbrev pub decimal_digits : ℕ → ℕ → Text
decimal_digits zero n = []
decimal_digits (suc fuel) n =
    let front = decimal_digits fuel (n / 10) in
    if ltb n 10 then (48 + n) ∷ [] else front ++ (48 + n % 10) ∷ []

abbrev pub decimal : ℕ → Text
decimal n = decimal_digits (suc n) n

abbrev pub braced : Text → Text
braced s = 123 ∷ s ++ 125 ∷ []

unfoldable mutual
  pub field_texts : ToonFields → Result (List Text)
  field_texts no_more = ok []
  field_texts (more f fs) = field_text f >>= λ t. field_texts fs >>= λ ts. ok (t ∷ ts)

  pub field_text : ToonField → Result Text
  field_text (leaf name) = encode_key name
  field_text (nested name fs) =
      encode_key name >>= λ t. field_texts fs >>= λ ts. ok (t ++ braced (join_cells ts))

unfoldable pub format_field_segment : ToonFields → Result Text
format_field_segment fs = do ts ← field_texts fs; ok (join_cells ts)

abbrev pub header_key : Option Text → Result Text
header_key none = ok []
header_key (some key) = encode_key key

abbrev pub header_fields : Option ToonFields → Result Text
header_fields none = ok []
header_fields (some fs) = do t ← format_field_segment fs; ok (braced t)

-- `[length]` or `[length:]`
abbrev pub header_length : ℕ → Bool → Text
header_length n keyed = 91 ∷ decimal n ++ (if keyed then 58 ∷ 93 ∷ [] else 93 ∷ [])

unfoldable pub format_header : ℕ → Option Text → Option ToonFields → Bool → Result Text
format_header n key fields keyed = do
  k ← header_key key
  f ← header_fields fields
  ok (k ++ header_length n keyed ++ f ++ 58 ∷ [])
