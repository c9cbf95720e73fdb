-- ===== src/Toon/Fits.antt =====
-- What it is for the rows of a table in src/utils/toon-encoder.ts to fit its fields.
use b2_mcp.Base.{
  All, List, [], all, arith, false, length, length-append, map, refl, true, true_of_and, ℕ, ◌++◌,
  ◌+◌, ◌∷◌, ◌≡◌,
}
use b2_mcp.Toon.Values.{
  Entries, Text, Value, arr, bool, end, entries_of, entry, get, has_own, is_non_empty_object_record,
  is_primitive, null, num, obj, str, undefined,
}
use b2_mcp.Toon.Columns.{
  ToonField, ToonFields, collect_field, collect_row_leaves, leaf, more, nested, no_more,
}

-- An object's keys are distinct, in the objects within it too.
abbrev mutual
  pub HasDistinctKeys : Entries → Type 0
  HasDistinctKeys end = Unit
  HasDistinctKeys (entry k v es) =
      (has_own k es ≡ false) × (HasDistinctKeysWithin v × HasDistinctKeys es)

  pub HasDistinctKeysWithin : Value → Type 0
  HasDistinctKeysWithin (obj es) = HasDistinctKeys es
  HasDistinctKeysWithin _ = Unit

-- The number of cells that a header announces: its names that have no children.
unfoldable mutual
  pub leaf_count : ToonFields → ℕ
  leaf_count no_more = 0
  leaf_count (more f fs) = field_count f + leaf_count fs

  pub field_count : ToonField → ℕ
  field_count (leaf name) = 1
  field_count (nested name fs) = leaf_count fs

-- The leaves are as many as announced, and each is a primitive.
pub record AreCells (vs : List Value) (n : ℕ) : Type 0 where
  pub primitive : all is_primitive vs ≡ true
  pub counted : length vs ≡ n

abbrev pub FitsField : ToonField → Value → Type 0
FitsField f v = AreCells (collect_field v f) (field_count f)

abbrev pub FitsRow : ToonFields → Entries → Type 0
FitsRow fs row = AreCells (collect_row_leaves row fs) (leaf_count fs)

pub all-append :
    (xs ys : List Value)
    → all is_primitive xs ≡ true
    → all is_primitive ys ≡ true
    → all is_primitive (xs ++ ys) ≡ true
all-append [] ys h k = k
all-append (x ∷ xs) ys h k = ground (arith, all-append xs ys)

pub append-AreCells :
    {xs ys : List Value} {m n : ℕ} → AreCells xs m → AreCells ys n → AreCells (xs ++ ys) (m + n)
append-AreCells {xs} {ys} a b = record {
  primitive = all-append xs ys a.primitive b.primitive;
  counted = rw (length-append xs ys, a.counted, b.counted) refl;
}

-- The first row reads the entries that the recursion goes down.
abbrev pub Reads : Entries → Entries → Type 0
Reads row end = Unit
Reads row (entry k v es) = (get k row ≡ v) × Reads row es

pub one-AreCells : (v : Value) → is_primitive v ≡ true → AreCells (v ∷ []) 1
one-AreCells v h = record { primitive = ground (arith, h); counted = refl }

pub leaves-fit :
    (name : Text) (vs : List Value) → all is_primitive vs ≡ true → All (FitsField (leaf name)) vs
unfolding collect_field field_count
leaves-fit name [] h = tt
leaves-fit name (v ∷ vs) h =
    let (p, ps) = true_of_and _ _ h in (one-AreCells v p, leaves-fit name vs ps)

pub row-FitsField :
    (name : Text) (fs : ToonFields) (es : Entries)
    → FitsRow fs es
    → FitsField (nested name fs) (obj es)
unfolding collect_field field_count
row-FitsField name fs es h = h

pub rows-fit :
    (name : Text) (fs : ToonFields) (vs : List Value)
    → all is_non_empty_object_record vs ≡ true
    → All (FitsRow fs) (map entries_of vs)
    → All (FitsField (nested name fs)) vs
rows-fit name fs [] h r = tt
rows-fit name fs (obj es ∷ vs) h (f, r) =
    (row-FitsField name fs es f, rows-fit name fs vs (true_of_and _ _ h).1 r)
rows-fit name fs (undefined ∷ vs) h r = absurd (ground (arith, h))
rows-fit name fs (null ∷ vs) h r = absurd (ground (arith, h))
rows-fit name fs (bool b ∷ vs) h r = absurd (ground (arith, h))
rows-fit name fs (num s ∷ vs) h r = absurd (ground (arith, h))
rows-fit name fs (str s ∷ vs) h r = absurd (ground (arith, h))
rows-fit name fs (arr xs ∷ vs) h r = absurd (ground (arith, h))
