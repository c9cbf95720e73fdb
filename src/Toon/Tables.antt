-- ===== src/Toon/Tables.antt =====
-- The tables of src/utils/toon-encoder.ts are rectangular: the fields found for some rows fit each
-- of them.
use b2_mcp.Base.{
  All, Bool, List, Option, [], all, arith, false, if◌then◌else◌, map, none, refl, some, subst, true,
  ◌∷◌, ◌≡◌,
}
use b2_mcp.Toon.Values.{
  Entries, Text, Value, arr, bool, end, entries_of, entry, get, has_own, is_non_empty_object_record,
  is_primitive, keys, null, num, obj, same_text, str, undefined,
}
use b2_mcp.Toon.Columns.{
  ToonField, ToonFields, classify_column, collect_row_leaves, column_fields, extract_tabular_fields,
  field_name, has_keys_of, if_tabular, leaf, more, no_more, option_bind,
}
use b2_mcp.Toon.Fits.{
  FitsField, FitsRow, HasDistinctKeys, HasDistinctKeysWithin, Reads, append-AreCells, leaf_count,
  leaves-fit, rows-fit,
}

chosen_some :
    {A : Type 0} (b : Bool) {o : Option A} {y : A}
    → (if b then o else none) ≡ some y
    → (b ≡ true) × (o ≡ some y)
chosen_some true h = (refl, h)
chosen_some false h = cc

bound :
    {A B : Type 0} (o : Option A) (g : A → Option B) {b : B}
    → option_bind o g ≡ some b
    → (a : A) × ((o ≡ some a) × (g a ≡ some b))
bound none g h = cc
bound (some a) g h = (a, (refl, h))

some-injective : {A : Type 0} {a b : A} → some a ≡ some b → a ≡ b
some-injective e = cc

tabular-columns :
    (es : Entries) (rows : List Entries) (o : Option ToonFields) {fs : ToonFields}
    → if_tabular es rows o ≡ some fs
    → o ≡ some fs
tabular-columns end rows o h = cc
tabular-columns (entry k v es) rows o h =
    (chosen_some (all (has_keys_of (k ∷ keys es)) (entry k v es ∷ rows)) h).1

more-fits :
    (f : ToonField) (fs : ToonFields) (row : Entries)
    → FitsField f (get (field_name f) row)
    → FitsRow fs row
    → FitsRow (more f fs) row
unfolding collect_row_leaves leaf_count
more-fits f fs row a b = append-AreCells a b

more-fit :
    (f : ToonField) (fs : ToonFields) (rows : List Entries)
    → All (FitsField f) (map (get (field_name f)) rows)
    → All (FitsRow fs) rows
    → All (FitsRow (more f fs)) rows
more-fit f fs [] a b = tt
more-fit f fs (row ∷ rows) (a, others) (b, bs) =
    (more-fits f fs row a b, more-fit f fs rows others bs)

-- The fields that a column gives fit its values.
record Column (k : Text) (v : Value) (vs : List Value) (f : ToonField) : Type 0 where
  name : field_name f ≡ k
  first : FitsField f v
  others : All (FitsField f) vs

leaf-Column :
    (k : Text) (v : Value) (vs : List Value) (f : ToonField)
    → (if all is_primitive (v ∷ vs) then some (leaf k) else none) ≡ some f
    → Column k v vs f
leaf-Column k v vs f h =
    let (p, e) = chosen_some (all is_primitive (v ∷ vs)) h in
    let (a, others) = leaves-fit k (v ∷ vs) p in
    subst (Column k v vs) (some-injective e) (record { name = refl; first = a; others = others })

empty_row : (row : Entries) → FitsRow no_more row
unfolding collect_row_leaves leaf_count
empty_row row = record { primitive = refl; counted = refl }

empty_rows : (rows : List Entries) → All (FitsRow no_more) rows
empty_rows [] = tt
empty_rows (row ∷ rows) = (empty_row row, empty_rows rows)

same_text_comm : (s t : Text) → same_text s t ≡ same_text t s
same_text_comm [] [] = refl
same_text_comm [] (d ∷ t) = refl
same_text_comm (c ∷ s) [] = refl
same_text_comm (c ∷ s) (d ∷ t) = ground (arith, same_text_comm s t)

same_text_refl : (s : Text) → same_text s s ≡ true
same_text_refl [] = refl
same_text_refl (c ∷ s) = ground (arith, same_text_refl s)

Reads-entry :
    (k : Text) (v : Value) (row es : Entries)
    → has_own k es ≡ false
    → Reads row es
    → Reads (entry k v row) es
Reads-entry k v row end fresh r = tt
Reads-entry k v row (entry j w es) fresh (g, r) =
    (ground (arith, same_text_comm k j, g, fresh), Reads-entry k v row es (ground (arith, fresh)) r)

Reads-self : (es : Entries) → HasDistinctKeys es → Reads es es
Reads-self end d = tt
Reads-self (entry k v es) (fresh, (dv, d)) =
    (rw (same_text_refl k) refl, Reads-entry k v es es fresh (Reads-self es d))

mutual
  unfolding column_fields

  columns-fit :
      (es : Entries) (rows : List Entries) (fs : ToonFields) (row : Entries)
      → HasDistinctKeys es
      → Reads row es
      → column_fields es rows ≡ some fs
      → FitsRow fs row × All (FitsRow fs) rows
  columns-fit end rows fs row d r h =
      subst (λ x. FitsRow x row × All (FitsRow x) rows) (some-injective h)
        (empty_row row, empty_rows rows)
  columns-fit (entry k v es) rows fs row (fresh, (dv, d)) (g, r) h =
      let (f, (hf, h')) = bound (classify_column k v (map (get k) rows)) _ h in
      let (gs, (hg, e)) = bound (column_fields es rows) _ h' in
      let c = Column-fits k v (map (get k) rows) f dv hf in
      let (a, others) = columns-fit es rows gs row d r hg in
      subst (λ x. FitsRow x row × All (FitsRow x) rows) (some-injective e)
        (
          more-fits f gs row (rw (c.name, g) c.first) a,
          more-fit f gs rows (rw c.name c.others) others,
        )

  Column-fits :
      (k : Text) (v : Value) (vs : List Value) (f : ToonField)
      → HasDistinctKeysWithin v
      → classify_column k v vs ≡ some f
      → Column k v vs f
  Column-fits k undefined vs f d h = leaf-Column k undefined vs f h
  Column-fits k null vs f d h = leaf-Column k null vs f h
  Column-fits k (bool b) vs f d h = leaf-Column k (bool b) vs f h
  Column-fits k (num s) vs f d h = leaf-Column k (num s) vs f h
  Column-fits k (str s) vs f d h = leaf-Column k (str s) vs f h
  Column-fits k (arr xs) vs f d h = leaf-Column k (arr xs) vs f h
  Column-fits k (obj es) vs f d h =
      let rows = map entries_of vs in
      let (full, h') = chosen_some (all is_non_empty_object_record (obj es ∷ vs)) h in
      let (fs, (hc, e)) = bound (if_tabular es rows (column_fields es rows)) _ h' in
      let fit = columns-fit es rows fs es d (Reads-self es d) (tabular-columns es rows _ hc) in
      let (a, others) = rows-fit k fs (obj es ∷ vs) full fit in
      subst (Column k (obj es) vs) (some-injective e)
        (record { name = refl; first = a; others = others })

-- Where some rows are put in a table, each gives as many cells as the header has names, and each
-- cell is a primitive: encoding it cannot end in the error for what is none.
pub extract_tabular_fields-fit :
    (row : Entries) (rows : List Entries) (fields : ToonFields)
    → HasDistinctKeys row
    → extract_tabular_fields (row ∷ rows) ≡ some fields
    → All (FitsRow fields) (row ∷ rows)
unfolding extract_tabular_fields
extract_tabular_fields-fit row rows fields d h =
    columns-fit row rows fields row d (Reads-self row d) (tabular-columns row rows _ h)
