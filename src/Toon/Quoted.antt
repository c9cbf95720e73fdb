-- ===== src/Toon/Quoted.antt =====
-- The texts that src/utils/toon-encoder.ts quotes are read back, and end at their closing quote.
use b2_mcp.Base.{List, [], append_assoc, arith, refl, some, ℕ, ◌++◌, ◌∷◌, ◌≡◌}
use b2_mcp.Toon.Values.{Text}
use b2_mcp.Toon.Strings.{escape_char, escape_string, quoted}
use b2_mcp.Toon.Reader.{inside, onto_first, outside, plain, read_quoted, split_cells, with_first}

read_escape_char :
    (c : ℕ) (s : Text) → read_quoted plain (escape_char c ++ s) ≡ with_first c (read_quoted plain s)
unfolding read_quoted
read_escape_char c s = ground arith

pub read_escape_string :
    (s rest : Text) → read_quoted plain (escape_string s ++ 34 ∷ rest) ≡ some (s, rest)
unfolding escape_string read_quoted
read_escape_string [] rest = refl
read_escape_string (c ∷ s) rest = rw (
  append_assoc (escape_char c) (escape_string s) (34 ∷ rest),
  read_escape_char c (escape_string s ++ 34 ∷ rest),
  read_escape_string s rest,
)

abbrev pub onto : Text → List Text → List Text
onto [] ts = ts
onto (c ∷ s) ts = onto_first c (onto s ts)

split_escape_char :
    (c : ℕ) (s : Text)
    → split_cells inside (escape_char c ++ s) ≡ onto (escape_char c) (split_cells inside s)
unfolding split_cells
split_escape_char c s = ground arith

pub onto-append : (s t : Text) (ts : List Text) → onto (s ++ t) ts ≡ onto s (onto t ts)
onto-append [] t ts = refl
onto-append (c ∷ s) t ts = rw (onto-append s t ts)

-- A quoted text keeps its commas.
split_escape_string :
    (s rest : Text)
    → split_cells inside (escape_string s ++ 34 ∷ rest)
      ≡ onto (escape_string s ++ 34 ∷ []) (split_cells outside rest)
unfolding escape_string split_cells
split_escape_string [] rest = refl
split_escape_string (c ∷ s) rest = rw (
  append_assoc (escape_char c) (escape_string s) (34 ∷ rest),
  split_escape_char c (escape_string s ++ 34 ∷ rest),
  split_escape_string s rest,
  append_assoc (escape_char c) (escape_string s) (34 ∷ []),
  onto-append (escape_char c) (escape_string s ++ 34 ∷ []) (split_cells outside rest),
)

pub split_quoted :
    (s rest : Text)
    → split_cells outside (quoted s ++ rest) ≡ onto (quoted s) (split_cells outside rest)
unfolding split_cells
split_quoted s rest = rw (append_assoc (escape_string s) (34 ∷ []) rest, split_escape_string s rest)
