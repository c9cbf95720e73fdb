-- ===== src/Toon/Reader.antt =====
-- A reader of the rows that src/utils/toon-encoder.ts writes: cells are split at the commas outside
-- quotes, and a cell is read back to its value. The source has no decoder: this one says what a row
-- means.
use b2_mcp.Base.{
  List, Option, [], codes, false, if◌then◌else◌, ltb, none, some, suc, true, zero, ℕ, ◌*◌, ◌+◌, ◌-◌,
  ◌==◌, ◌∷◌, ◌≡◌,
}
use b2_mcp.Toon.Values.{Text, Value, bool, null, num, same_text, str}
use b2_mcp.Toon.Utf16.{IsUtf16}
use b2_mcp.Toon.Strings.{is_numeric_like}

-- Where a reader stands in a quoted text: after a backslash, or in the digits after `\u`.
pub data Mode : Type 0 where
  plain escape : Mode
  hex : ℕ → ℕ → Mode

abbrev pub hex_value : ℕ → ℕ
hex_value c = if ltb c 58 then c - 48 else c - 87

abbrev pub unescaped : ℕ → ℕ
unescaped c = if c == 110 then 10 else if c == 114 then 13 else if c == 116 then 9 else c

abbrev pub with_first : ℕ → Option (Text × Text) → Option (Text × Text)
with_first c none = none
with_first c (some (s, rest)) = some (c ∷ s, rest)

-- The text up to the closing quote, and what follows.
unfoldable pub read_quoted : Mode → Text → Option (Text × Text)
read_quoted m [] = none
read_quoted plain (c ∷ s) =
    let next = with_first c (read_quoted plain s) in
    let special = read_quoted escape s in
    if c == 34 then some ([], s) else if c == 92 then special else next
read_quoted escape (c ∷ s) =
    let next = with_first (unescaped c) (read_quoted plain s) in
    let special = read_quoted (hex 3 0) s in if c == 117 then special else next
read_quoted (hex zero n) (c ∷ s) = with_first (16 * n + hex_value c) (read_quoted plain s)
read_quoted (hex (suc k) n) (c ∷ s) = read_quoted (hex k (16 * n + hex_value c)) s

-- Whether the splitter is within quotes, and after a backslash there.
pub data Side : Type 0 where
  outside inside escaped : Side

abbrev pub onto_first : ℕ → List Text → List Text
onto_first c [] = (c ∷ []) ∷ []
onto_first c (t ∷ ts) = (c ∷ t) ∷ ts

unfoldable pub split_cells : Side → Text → List Text
split_cells side [] = [] ∷ []
split_cells outside (c ∷ s) =
    let next = split_cells outside s in
    let quote = split_cells inside s in
    if c == 44 then [] ∷ next else onto_first c (if c == 34 then quote else next)
split_cells inside (c ∷ s) =
    let next = split_cells inside s in
    let close = split_cells outside s in
    let skip = split_cells escaped s in
    onto_first c (if c == 34 then close else if c == 92 then skip else next)
split_cells escaped (c ∷ s) = onto_first c (split_cells inside s)

abbrev pub whole : Option (Text × Text) → Option Value
whole (some (s, [])) = some (str s)
whole _ = none

abbrev pub read_bare : Text → Value
read_bare s =
    if is_numeric_like s
    then num s
    else if same_text s (codes "null")
    then null
    else if same_text s (codes "true")
    then bool true
    else if same_text s (codes "false")
    then bool false
    else str s

unfoldable pub read_cell : Text → Option Value
read_cell [] = some (str [])
read_cell (c ∷ s) = if c == 34 then whole (read_quoted plain s) else some (read_bare (c ∷ s))

abbrev pub both : Option Value → Option (List Value) → Option (List Value)
both (some v) (some vs) = some (v ∷ vs)
both _ _ = none

abbrev pub read_cells : List Text → Option (List Value)
read_cells [] = some []
read_cells (t ∷ ts) = both (read_cell t) (read_cells ts)

unfoldable pub read_row : Text → Option (List Value)
read_row text = read_cells (split_cells outside text)

-- A value that a cell can hold: numbers are finite, so that `String` gives a decimal number, and
-- texts are UTF-16.
abbrev pub IsCell : Value → Type 0
IsCell null = Unit
IsCell (bool b) = Unit
IsCell (num s) = is_numeric_like s ≡ true
IsCell (str s) = IsUtf16 s
IsCell _ = ⊥
