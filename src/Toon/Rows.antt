-- ===== src/Toon/Rows.antt =====
-- The rows that src/utils/toon-encoder.ts writes are read back cell by cell.
use b2_mcp.Base.{
  All, Bool-cases, List, [], any, append-nil, arith, codes, false, if◌then◌else◌, inl, inr, refl,
  some, subst, true, ℕ, ◌++◌, ◌∷◌, ◌≡◌,
}
use b2_mcp.Toon.Values.{Text, Value, arr, bool, null, num, obj, str, undefined}
use b2_mcp.Toon.Utf16.{IsUtf16, assert_no_lone_surrogate_iff}
use b2_mcp.Toon.Strings.{
  encode_and_join_primitives, encode_primitive, encode_string_literal, is_literal_word,
  is_numeric_like, is_safe_unquoted, join_cells, quoted, traverse,
}
use b2_mcp.Toon.Reader.{IsCell, outside, read_bare, read_cell, read_cells, read_row, split_cells}
use b2_mcp.Toon.Quoted.{onto, read_escape_string, split_quoted}
use b2_mcp.Toon.Bare.{numeric-bare, safe-IsBare, separates, split_bare}
use b2_mcp.Toon.Surrogates.{ok}

-- A cell's text: it is not split, and is read back.
pub record IsTextOf (v : Value) (t : Text) : Type 0 where
  pub read : read_cell t ≡ some v
  pub closed : (rest : Text) → split_cells outside (t ++ rest) ≡ onto t (split_cells outside rest)

bare-IsTextOf :
    (v : Value) (c : ℕ) (s : Text)
    → any separates (c ∷ s) ≡ false
    → read_bare (c ∷ s) ≡ v
    → IsTextOf v (c ∷ s)
unfolding read_cell
bare-IsTextOf v c s b h = record {
  read = ground (arith, h);
  closed = λ rest. split_bare (c ∷ s) rest b;
}

pub quoted-IsTextOf : (s : Text) → IsTextOf (str s) (quoted s)
unfolding read_cell
quoted-IsTextOf s = record {
  read = rw (read_escape_string s []) refl;
  closed = λ rest. split_quoted s rest;
}

number-IsTextOf : (s : Text) → is_numeric_like s ≡ true → IsTextOf (num s) s
unfolding is_numeric_like
number-IsTextOf [] h = cc
number-IsTextOf (c ∷ s) h = bare-IsTextOf (num (c ∷ s)) c s (numeric-bare (c ∷ s) h) (rw h refl)

read_bare-str :
    (s : Text) → is_numeric_like s ≡ false → is_literal_word s ≡ false → read_bare s ≡ str s
read_bare-str s n w = ground arith

plain-IsTextOf : (s : Text) → is_safe_unquoted s ≡ true → IsTextOf (str s) s
unfolding is_safe_unquoted
plain-IsTextOf [] h = cc
plain-IsTextOf (c ∷ s) h =
    let b = safe-IsBare (c ∷ s) h in
    bare-IsTextOf (str (c ∷ s)) c s b.bare (read_bare-str (c ∷ s) b.no_number b.no_word)

-- A value's text, and that it is written.
pub record IsWritten (v : Value) : Type 0 where
  pub text : Text
  pub written : encode_primitive v ≡ ok text
  pub means : IsTextOf v text

literal-IsTextOf : (s : Text) → IsTextOf (str s) (if is_safe_unquoted s then s else quoted s)
literal-IsTextOf s = elim (Bool-cases (is_safe_unquoted s)) [
  | inl safe ↦ rw safe (plain-IsTextOf s safe)
  | inr unsafe ↦ rw unsafe (quoted-IsTextOf s)
]

encode_string_literal_lem :
    (s : Text)
    → IsUtf16 s
    → encode_string_literal s ≡ ok (if is_safe_unquoted s then s else quoted s)
unfolding encode_string_literal
encode_string_literal_lem s u = rw ((assert_no_lone_surrogate_iff s "string value").1 u) refl

pub cell-IsWritten : (v : Value) → IsCell v → IsWritten v
unfolding encode_primitive is_numeric_like
cell-IsWritten undefined c = absurd c
cell-IsWritten null c = record {
  text = _;
  written = refl;
  means = bare-IsTextOf null 110 (codes "ull") refl refl;
}
cell-IsWritten (bool true) c = record {
  text = _;
  written = refl;
  means = bare-IsTextOf (bool true) 116 (codes "rue") refl refl;
}
cell-IsWritten (bool false) c = record {
  text = _;
  written = refl;
  means = bare-IsTextOf (bool false) 102 (codes "alse") refl refl;
}
cell-IsWritten (num s) c = record { text = s; written = refl; means = number-IsTextOf s c }
cell-IsWritten (str s) c = record {
  text = _;
  written = encode_string_literal_lem s c;
  means = literal-IsTextOf s;
}
cell-IsWritten (arr xs) c = absurd c
cell-IsWritten (obj es) c = absurd c

-- Texts of the values, one each.
abbrev pub AreTextsOf : List Value → List Text → Type 0
AreTextsOf [] [] = Unit
AreTextsOf (v ∷ vs) (t ∷ ts) = IsTextOf v t × AreTextsOf vs ts
AreTextsOf _ _ = ⊥

pub texts : (vs : List Value) → All IsCell vs → List Text
texts [] c = []
texts (v ∷ vs) (c, cs) = (cell-IsWritten v c).text ∷ texts vs cs

traverse-texts :
    (vs : List Value) (c : All IsCell vs) → traverse encode_primitive vs ≡ ok (texts vs c)
unfolding texts
traverse-texts [] c = refl
traverse-texts (v ∷ vs) (c, cs) = rw ((cell-IsWritten v c).written, traverse-texts vs cs)

texts-AreTextsOf : (vs : List Value) (c : All IsCell vs) → AreTextsOf vs (texts vs c)
unfolding texts
texts-AreTextsOf [] c = tt
texts-AreTextsOf (v ∷ vs) (c, cs) = ((cell-IsWritten v c).means, texts-AreTextsOf vs cs)

onto-cons : (s t : Text) (ts : List Text) → onto s (t ∷ ts) ≡ (s ++ t) ∷ ts
onto-cons [] t ts = refl
onto-cons (c ∷ s) t ts = rw (onto-cons s t ts)

split_joined :
    (v : Value) (vs : List Value) (t : Text) (ts : List Text)
    → AreTextsOf (v ∷ vs) (t ∷ ts)
    → split_cells outside (join_cells (t ∷ ts)) ≡ t ∷ ts
unfolding split_cells
split_joined v [] t [] (a, r) =
    subst (λ x. split_cells outside x ≡ x ∷ []) (append-nil t) (rw (a.closed [], onto-cons t [] []))
split_joined v (w ∷ vs) t (u ∷ ts) (a, r) = rw (
  a.closed (44 ∷ join_cells (u ∷ ts)),
  split_joined w vs u ts r,
  onto-cons t [] (u ∷ ts),
  append-nil t,
)
split_joined v [] t (u ∷ ts) (a, r) = absurd r
split_joined v (w ∷ vs) t [] (a, r) = absurd r

read_texts : (vs : List Value) (ts : List Text) → AreTextsOf vs ts → read_cells ts ≡ some vs
read_texts [] [] r = refl
read_texts (v ∷ vs) (t ∷ ts) (a, r) = rw (a.read, read_texts vs ts r)
read_texts [] (t ∷ ts) r = absurd r
read_texts (v ∷ vs) [] r = absurd r

read_joined :
    (v : Value) (vs : List Value) (ts : List Text)
    → AreTextsOf (v ∷ vs) ts
    → read_row (join_cells ts) ≡ some (v ∷ vs)
unfolding read_row
read_joined v vs [] r = absurd r
read_joined v vs (t ∷ ts) r = rw (split_joined v vs t ts r, read_texts (v ∷ vs) (t ∷ ts) r)

-- A row of at least one cell is written, and read back to its values: each comma, quote, digit and
-- word in a text is told from a separator, a closing quote, a number and a literal.
pub read_row-encode_and_join_primitives :
    (v : Value) (vs : List Value)
    → All IsCell (v ∷ vs)
    → (row : Text) × ((encode_and_join_primitives (v ∷ vs) ≡ ok row)
        × (read_row row ≡ some (v ∷ vs)))
unfolding encode_and_join_primitives
read_row-encode_and_join_primitives v vs c = (
  join_cells (texts (v ∷ vs) c),
  (
    rw (traverse-texts (v ∷ vs) c),
    read_joined v vs (texts (v ∷ vs) c) (texts-AreTextsOf (v ∷ vs) c),
  ),
)
