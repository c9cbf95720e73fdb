-- ===== src/Toon/Framed.antt =====
-- The pieces of src/utils/toon-encoder.ts that yield lines yield texts without a line feed.
use b2_mcp.Base.{
  All, All-append, Bool-cases, List, Option, [], false, inl, inr, length, map, none, refl, some,
  suc, zero, ℕ, ◌+◌, ◌∷◌,
}
use b2_mcp.Toon.Values.{
  Entries, Items, Text, Value, arr, bool, cons, elements, end, entries_of, entry, is_object_record,
  items_of, nil, null, num, obj, str, undefined,
}
use b2_mcp.Toon.Surrogates.{Result}
use b2_mcp.Toon.Strings.{encode_and_join_primitives, encode_key}
use b2_mcp.Toon.Columns.{ToonFields, collect_row_leaves, format_header}
use b2_mcp.Toon.Lines.{
  and_lines, empty_array, encode_array_of_arrays_as_list_items_lines, encode_inline_array_line,
  encode_keyed_entry_rows_lines, indented_line, indented_list_item, key_and, key_colon, one_line,
  spaces, table_rows, under_key,
}
use b2_mcp.Toon.Breaks.{
  HasNumbers, HasNumbersEntries, HasNumbersItems, NoBreak, Returns, append-NoBreak, bind-Returns,
  encode_key-NoBreak, row-NoBreak, traverse-Returns,
}
use b2_mcp.Toon.Headers.{cells-NoBreak, entries_of-HasNumbers, header-NoBreak}

abbrev pub AreLines : Result (List Text) → Type 0
AreLines r = Returns (All NoBreak) r

spaces-NoBreak : (depth : ℕ) → NoBreak (spaces depth)
spaces-NoBreak zero = refl
spaces-NoBreak (suc depth) = spaces-NoBreak depth

pub line-NoBreak : (depth : ℕ) (t : Text) → NoBreak t → NoBreak (indented_line depth t)
line-NoBreak depth t h = append-NoBreak (spaces depth) t (spaces-NoBreak depth) h

pub item-NoBreak : (depth : ℕ) (t : Text) → NoBreak t → NoBreak (indented_list_item depth t)
item-NoBreak depth t h = line-NoBreak depth (45 ∷ 32 ∷ t) h

-- Indenting a line, or a list item, brings in no line feed.
abbrev pub IsPlace : (Text → Text) → Type 0
IsPlace place = (t : Text) → NoBreak t → NoBreak (place t)

pub one_line-AreLines :
    (place : Text → Text) (r : Result Text)
    → IsPlace place
    → Returns NoBreak r
    → AreLines (one_line place r)
one_line-AreLines place r p h = bind-Returns NoBreak (All NoBreak) r _ h (λ t k. (p t k, tt))

pub and_lines-AreLines :
    (a b : Result (List Text)) → AreLines a → AreLines b → AreLines (and_lines a b)
and_lines-AreLines a b h k = bind-Returns (All NoBreak) (All NoBreak) a _ h (λ ls hs.
    bind-Returns (All NoBreak) (All NoBreak) b _ k (λ ms ks. All-append NoBreak ls ms hs ks))

key_colon-NoBreak : (key : Text) → Returns NoBreak (key_colon key)
key_colon-NoBreak key =
    bind-Returns NoBreak NoBreak (encode_key key) _ (encode_key-NoBreak key)
      (λ k h. append-NoBreak k (58 ∷ []) h refl)

pub under_key-AreLines :
    (place : Text → Text) (key : Text) (below : Result (List Text))
    → IsPlace place
    → AreLines below
    → AreLines (under_key place key below)
under_key-AreLines place key below p h =
    and_lines-AreLines (one_line place (key_colon key)) below
      (one_line-AreLines place (key_colon key) p (key_colon-NoBreak key)) h

pub key_and-NoBreak :
    (key : Text) (content : Result Text)
    → Returns NoBreak content
    → Returns NoBreak (key_and key content)
key_and-NoBreak key content h =
    bind-Returns NoBreak NoBreak (encode_key key) _ (encode_key-NoBreak key) (λ k hk.
      bind-Returns NoBreak NoBreak content _ h (λ c hc. append-NoBreak k (58 ∷ 32 ∷ c) hk hc))

pub empty_array-NoBreak : (key : Option Text) → Returns NoBreak (empty_array key)
empty_array-NoBreak none = refl
empty_array-NoBreak (some key) =
    bind-Returns NoBreak NoBreak (encode_key key) _ (encode_key-NoBreak key)
      (λ k h. append-NoBreak k (58 ∷ 32 ∷ 91 ∷ 93 ∷ []) h refl)

pub elements-HasNumbers : (xs : Items) → HasNumbersItems xs → All HasNumbers (elements xs)
elements-HasNumbers nil h = tt
elements-HasNumbers (cons v xs) (p, h) = (p, elements-HasNumbers xs h)

items_of-HasNumbers : (v : Value) → HasNumbers v → HasNumbersItems (items_of v)
items_of-HasNumbers undefined h = tt
items_of-HasNumbers null h = tt
items_of-HasNumbers (bool b) h = tt
items_of-HasNumbers (num s) h = tt
items_of-HasNumbers (str s) h = tt
items_of-HasNumbers (arr xs) h = h
items_of-HasNumbers (obj es) h = tt

pub rows-HasNumbers :
    (vs : List Value) → All HasNumbers vs → All HasNumbersEntries (map entries_of vs)
rows-HasNumbers [] h = tt
rows-HasNumbers (v ∷ vs) (p, h) = (entries_of-HasNumbers v p, rows-HasNumbers vs h)

pub inline-NoBreak :
    (xs : Items) (key : Option Text)
    → HasNumbersItems xs
    → Returns NoBreak (encode_inline_array_line xs key)
unfolding encode_inline_array_line
inline-NoBreak nil key h = header-NoBreak 0 key none false
inline-NoBreak (cons v xs) key h =
    let vs = elements (cons v xs) in
    bind-Returns NoBreak NoBreak (format_header (length vs) key none false) _
      (header-NoBreak (length vs) key none false)
      (λ t ht.
        bind-Returns NoBreak NoBreak (encode_and_join_primitives vs) _
          (row-NoBreak vs (elements-HasNumbers (cons v xs) h))
          (λ c hc. append-NoBreak t (32 ∷ c) ht hc))

pub keyed_rows-AreLines :
    (es : Entries) (fields : ToonFields) (depth : ℕ)
    → HasNumbersEntries es
    → AreLines (encode_keyed_entry_rows_lines es fields depth)
unfolding encode_keyed_entry_rows_lines
keyed_rows-AreLines end fields depth h = tt
keyed_rows-AreLines (entry k v es) fields depth (p, h) = elim (Bool-cases (is_object_record v)) [
  | inl object ↦ rw object (
      and_lines-AreLines _ _
        (one_line-AreLines (indented_line depth) _ (line-NoBreak depth)
          (key_and-NoBreak k _ (cells-NoBreak (entries_of v) fields (entries_of-HasNumbers v p))))
        (keyed_rows-AreLines es fields depth h))
  | inr other ↦ rw other (keyed_rows-AreLines es fields depth h)
]

pub table_rows-AreLines :
    (rows : List Entries) (fields : ToonFields) (depth : ℕ)
    → All HasNumbersEntries rows
    → AreLines (table_rows rows fields depth)
unfolding table_rows
table_rows-AreLines rows fields depth h =
    traverse-Returns HasNumbersEntries NoBreak _ rows
      (λ row hr.
        bind-Returns NoBreak NoBreak (encode_and_join_primitives (collect_row_leaves row fields)) _
          (cells-NoBreak row fields hr) (line-NoBreak depth))
      h

pub arrays-AreLines :
    (key : Option Text) (vs : List Value) (depth : ℕ)
    → All HasNumbers vs
    → AreLines (encode_array_of_arrays_as_list_items_lines key vs depth)
unfolding encode_array_of_arrays_as_list_items_lines
arrays-AreLines key vs depth h =
    and_lines-AreLines _ _
      (one_line-AreLines (indented_line depth) _ (line-NoBreak depth)
        (header-NoBreak (length vs) key none false))
      (traverse-Returns HasNumbers NoBreak _ vs
        (λ v hv.
          bind-Returns NoBreak NoBreak (encode_inline_array_line (items_of v) none) _
            (inline-NoBreak (items_of v) none (items_of-HasNumbers v hv))
            (item-NoBreak (depth + 1)))
        h)
