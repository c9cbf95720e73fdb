-- ===== src/Toon/Values.antt =====
-- The values that src/utils/toon-encoder.ts encodes, and its tests on them. A text is the list of
-- its UTF-16 code units; a number stands as the text that `String(value)` gives for it.
use b2_mcp.Base.{Bool, List, [], all, false, if◌then◌else◌, not, true, ℕ, ◌&&◌, ◌==◌, ◌||◌, ◌∷◌}

abbrev pub Text : Type 0
Text = List ℕ

mutual
  -- `JsonCompatible`, with what reading a missing key gives.
  pub data Value : Type 0 where
    undefined null : Value
    bool : Bool → Value
    num : Text → Value
    str : Text → Value
    arr : Items → Value
    obj : Entries → Value

  pub data Items : Type 0 where
    nil : Items
    cons : Value → Items → Items

  -- The own entries of an object, in the order of `Object.entries`.
  pub data Entries : Type 0 where
    end : Entries
    entry : Text → Value → Entries → Entries

abbrev pub same_text : Text → Text → Bool
same_text [] [] = true
same_text (c ∷ s) (d ∷ t) = (c == d) && same_text s t
same_text _ _ = false

-- `row[key]`
abbrev pub get : Text → Entries → Value
get k end = undefined
get k (entry j v es) = let rest = get k es in if same_text j k then v else rest

-- `Object.prototype.hasOwnProperty.call(row, key)`
abbrev pub has_own : Text → Entries → Bool
has_own k end = false
has_own k (entry j v es) = same_text j k || has_own k es

abbrev pub keys : Entries → List Text
keys end = []
keys (entry k v es) = k ∷ keys es

abbrev pub values : Entries → List Value
values end = []
values (entry k v es) = v ∷ values es

abbrev pub elements : Items → List Value
elements nil = []
elements (cons v xs) = v ∷ elements xs

abbrev pub entries_of : Value → Entries
entries_of (obj es) = es
entries_of _ = end

abbrev pub items_of : Value → Items
items_of (arr xs) = xs
items_of _ = nil

abbrev pub is_primitive : Value → Bool
is_primitive undefined = false
is_primitive (arr xs) = false
is_primitive (obj es) = false
is_primitive _ = true

abbrev pub is_object_record : Value → Bool
is_object_record (obj es) = true
is_object_record _ = false

abbrev pub is_array : Value → Bool
is_array (arr xs) = true
is_array _ = false

abbrev pub is_empty_object : Entries → Bool
is_empty_object end = true
is_empty_object (entry k v es) = false

abbrev pub is_non_empty_object_record : Value → Bool
is_non_empty_object_record (obj es) = not (is_empty_object es)
is_non_empty_object_record _ = false

abbrev pub is_array_of_primitives : Items → Bool
is_array_of_primitives xs = all is_primitive (elements xs)

abbrev pub is_array_of_arrays : Items → Bool
is_array_of_arrays xs = all is_array (elements xs)

abbrev pub is_array_of_objects : Items → Bool
is_array_of_objects xs = all is_object_record (elements xs)
