-- ===== src/Toon/Headers.antt =====
-- The headers of src/utils/toon-encoder.ts have no line feed, and the cells of a row are values of it.
use b2_mcp.Base.{
  All, All-append, Bool, Bool-cases, Option, [], arith, false, inl, inr, ltb, none, refl, some, suc,
  true, zero, ℕ, ◌%◌, ◌++◌, ◌+◌, ◌/◌, ◌∷◌,
}
use b2_mcp.Toon.Values.{
  Entries, Text, Value, arr, bool, end, entries_of, entry, get, is_object_record, null, num, obj,
  same_text, str, undefined,
}
use b2_mcp.Toon.Strings.{encode_and_join_primitives, encode_key, join_cells}
use b2_mcp.Toon.Columns.{
  ToonField, ToonFields, braced, collect_field, collect_row_leaves, decimal, decimal_digits,
  field_name, field_text, field_texts, format_field_segment, format_header, header_fields,
  header_key, header_length, leaf, more, nested, no_more,
}
use b2_mcp.Toon.Breaks.{
  HasNumbers, HasNumbersEntries, NoBreak, Returns, append-NoBreak, bind-Returns, encode_key-NoBreak,
  join_cells-NoBreak, row-NoBreak,
}

decimal_digits-NoBreak : (fuel n : ℕ) → NoBreak (decimal_digits fuel n)
decimal_digits-NoBreak zero n = refl
decimal_digits-NoBreak (suc fuel) n = elim (Bool-cases (ltb n 10)) [
  | inl small ↦ rw small (ground arith)
  | inr large ↦ rw large (
      append-NoBreak (decimal_digits fuel (n / 10)) ((48 + n % 10) ∷ [])
        (decimal_digits-NoBreak fuel (n / 10)) (ground arith))
]

length-NoBreak : (n : ℕ) (keyed : Bool) → NoBreak (header_length n keyed)
length-NoBreak n true =
    append-NoBreak (decimal n) (58 ∷ 93 ∷ []) (decimal_digits-NoBreak (suc n) n) refl
length-NoBreak n false =
    append-NoBreak (decimal n) (93 ∷ []) (decimal_digits-NoBreak (suc n) n) refl

braced-NoBreak : (s : Text) → NoBreak s → NoBreak (braced s)
braced-NoBreak s h = append-NoBreak s (125 ∷ []) h refl

mutual
  unfolding field_texts field_text

  texts-NoBreak : (fs : ToonFields) → Returns (All NoBreak) (field_texts fs)
  texts-NoBreak no_more = tt
  texts-NoBreak (more f fs) =
      bind-Returns NoBreak (All NoBreak) (field_text f) _ (field-NoBreak f) (λ t h.
        bind-Returns (All NoBreak) (All NoBreak) (field_texts fs) _ (texts-NoBreak fs)
          (λ ts hs. (h, hs)))

  field-NoBreak : (f : ToonField) → Returns NoBreak (field_text f)
  field-NoBreak (leaf name) = encode_key-NoBreak name
  field-NoBreak (nested name fs) =
      bind-Returns NoBreak NoBreak (encode_key name) _ (encode_key-NoBreak name) (λ t h.
        bind-Returns (All NoBreak) NoBreak (field_texts fs) _ (texts-NoBreak fs) (λ ts hs.
          append-NoBreak t (braced (join_cells ts)) h
            (braced-NoBreak (join_cells ts) (join_cells-NoBreak ts hs))))

segment-NoBreak : (fs : ToonFields) → Returns NoBreak (format_field_segment fs)
unfolding format_field_segment
segment-NoBreak fs =
    bind-Returns (All NoBreak) NoBreak (field_texts fs) _ (texts-NoBreak fs) join_cells-NoBreak

header_key-NoBreak : (key : Option Text) → Returns NoBreak (header_key key)
header_key-NoBreak none = refl
header_key-NoBreak (some key) = encode_key-NoBreak key

header_fields-NoBreak : (fields : Option ToonFields) → Returns NoBreak (header_fields fields)
header_fields-NoBreak none = refl
header_fields-NoBreak (some fs) =
    bind-Returns NoBreak NoBreak (format_field_segment fs) _ (segment-NoBreak fs) braced-NoBreak

pub header-NoBreak :
    (n : ℕ) (key : Option Text) (fields : Option ToonFields) (keyed : Bool)
    → Returns NoBreak (format_header n key fields keyed)
unfolding format_header
header-NoBreak n key fields keyed =
    bind-Returns NoBreak NoBreak (header_key key) _ (header_key-NoBreak key) (λ k hk.
      bind-Returns NoBreak NoBreak (header_fields fields) _ (header_fields-NoBreak fields) (λ f hf.
        append-NoBreak (k ++ header_length n keyed ++ f) (58 ∷ [])
          (append-NoBreak (k ++ header_length n keyed) f
            (append-NoBreak k (header_length n keyed) hk (length-NoBreak n keyed)) hf)
          refl))

pub get-HasNumbers : (k : Text) (es : Entries) → HasNumbersEntries es → HasNumbers (get k es)
get-HasNumbers k end h = tt
get-HasNumbers k (entry j v es) (p, h) = elim (Bool-cases (same_text j k)) [
  | inl same ↦ rw same p
  | inr other ↦ rw other (get-HasNumbers k es h)
]

pub entries_of-HasNumbers : (v : Value) → HasNumbers v → HasNumbersEntries (entries_of v)
entries_of-HasNumbers undefined h = tt
entries_of-HasNumbers null h = tt
entries_of-HasNumbers (bool b) h = tt
entries_of-HasNumbers (num s) h = tt
entries_of-HasNumbers (str s) h = tt
entries_of-HasNumbers (arr xs) h = tt
entries_of-HasNumbers (obj es) h = h

mutual
  unfolding collect_row_leaves collect_field

  leaves-HasNumbers :
      (row : Entries) (fs : ToonFields)
      → HasNumbersEntries row
      → All HasNumbers (collect_row_leaves row fs)
  leaves-HasNumbers row no_more h = tt
  leaves-HasNumbers row (more f fs) h =
      All-append HasNumbers (collect_field (get (field_name f) row) f) (collect_row_leaves row fs)
        (field-HasNumbers (get (field_name f) row) f (get-HasNumbers (field_name f) row h))
        (leaves-HasNumbers row fs h)

  field-HasNumbers : (v : Value) (f : ToonField) → HasNumbers v → All HasNumbers (collect_field v f)
  field-HasNumbers v (leaf name) h = (h, tt)
  field-HasNumbers v (nested name fs) h = elim (Bool-cases (is_object_record v)) [
    | inl object ↦ rw object (leaves-HasNumbers (entries_of v) fs (entries_of-HasNumbers v h))
    | inr other ↦ rw other (h, tt)
  ]

pub cells-NoBreak :
    (row : Entries) (fs : ToonFields)
    → HasNumbersEntries row
    → Returns NoBreak (encode_and_join_primitives (collect_row_leaves row fs))
cells-NoBreak row fs h = row-NoBreak (collect_row_leaves row fs) (leaves-HasNumbers row fs h)
