-- ===== src/Csv.antt =====
-- parseCsv of src/b2/insights.ts, which reads the usage reports. A text is the list of its UTF-16
-- code units; an object of fields is the list of its entries.
pub mod Written
mod Fields
mod Tests
use b2_mcp.Base.{
  Bool, List, [], false, if◌then◌else◌, leb, map, true, ℕ, ◌&&◌, ◌++◌, ◌==◌, ◌||◌, ◌∷◌,
}

abbrev pub Units : Type 0
Units = List ℕ

-- The variables of the loop.
pub record Scan : Type 0 where
  pub rows : List (List Units)
  pub row : List Units
  pub field : Units
  pub in_quotes : Bool

-- `text[i + 1]`, compared.
abbrev pub next_is : ℕ → Units → Bool
next_is c [] = false
next_is c (d ∷ s) = d == c

abbrev pub is_blank_row : List Units → Bool
is_blank_row ([] ∷ []) = true
is_blank_row _ = false

-- `row.push(field); field = ""`
abbrev pub end_field : Scan → Scan
end_field s = record s { row = s.row ++ s.field ∷ []; field = [] }

-- `if (row.length > 1 || row[0] !== "") rows.push(row); row = []`
abbrev pub end_row : Scan → Scan
end_row s = record s {
  rows = if is_blank_row s.row then s.rows else s.rows ++ s.row ∷ [];
  row = [];
}

abbrev pub add_unit : ℕ → Scan → Scan
add_unit c s = record s { field = s.field ++ c ∷ [] }

-- One round of the loop at `c`, before the text `rest`.
unfoldable pub scan_unit : Scan → ℕ → Units → Scan
scan_unit s c rest =
    if s.in_quotes
    then if c == 34
      then if next_is 34 rest then add_unit 34 s else record s { in_quotes = false }
      else add_unit c s
    else if c == 34
    then record s { in_quotes = true }
    else if c == 44
    then end_field s
    else if (c == 10) || (c == 13)
    then end_row (end_field s)
    else add_unit c s

-- Whether the round takes the next unit too, by its `i++`.
unfoldable pub takes_next : Bool → ℕ → Units → Bool
takes_next in_quotes c rest =
    if in_quotes then (c == 34) && next_is 34 rest else (c == 13) && next_is 10 rest

unfoldable pub csv_loop : Scan → Units → Scan
csv_loop s [] = s
csv_loop s (c ∷ []) = scan_unit s c []
csv_loop s (c ∷ d ∷ rest) = elim (takes_next s.in_quotes c (d ∷ rest)) [
  | true ↦ csv_loop (scan_unit s c (d ∷ rest)) rest
  | false ↦ csv_loop (scan_unit s c (d ∷ rest)) (d ∷ rest)
]

abbrev pub is_nil {ℓ} : {A : Type ℓ} → List A → Bool
is_nil [] = true
is_nil (x ∷ xs) = false

-- The last row, where the text does not end a line.
unfoldable pub last_row : Scan → List (List Units)
last_row s = if is_nil s.field && is_nil s.row then s.rows else (end_row (end_field s)).rows

abbrev pub start : Scan
start = record { rows = []; row = []; field = []; in_quotes = false }

unfoldable pub csv_rows : Units → List (List Units)
csv_rows text = last_row (csv_loop start text)

-- The white space and line ends that `trim` removes.
abbrev pub is_white_space : ℕ → Bool
is_white_space c =
    (leb 9 c && leb c 13)
    || (c == 32)
    || (c == 160)
    || (c == 5760)
    || (leb 8192 c && leb c 8202)
    || (c == 8232)
    || (c == 8233)
    || (c == 8239)
    || (c == 8287)
    || (c == 12288)
    || (c == 65279)

abbrev pub trim_start : Units → Units
trim_start [] = []
trim_start (c ∷ s) = let rest = trim_start s in if is_white_space c then rest else c ∷ s

abbrev pub trim_end : Units → Units
trim_end [] = []
trim_end (c ∷ s) = let rest = trim_end s in if is_nil rest && is_white_space c then [] else c ∷ rest

abbrev pub trim : Units → Units
trim s = trim_end (trim_start s)

abbrev pub same_units : Units → Units → Bool
same_units [] [] = true
same_units (c ∷ s) (d ∷ t) = (c == d) && same_units s t
same_units _ _ = false

-- `obj[h] = v`
abbrev pub assign : Units → Units → List (Units × Units) → List (Units × Units)
assign h v [] = (h, v) ∷ []
assign h v ((k, w) ∷ obj) =
    let rest = assign h v obj in if same_units k h then (k, v) ∷ obj else (k, w) ∷ rest

-- The assignments for a row, whose missing fields are empty.
abbrev pub fill : List Units → List Units → List (Units × Units) → List (Units × Units)
fill [] r obj = obj
fill (h ∷ header) [] obj = fill header [] (assign h [] obj)
fill (h ∷ header) (v ∷ r) obj = fill header r (assign h v obj)

unfoldable pub parse_csv : Units → List (List (Units × Units))
parse_csv text = elim (csv_rows text) [
  | [] ↦ []
  | head ∷ rows ↦ map (λ r. fill (map trim head) r []) rows
]
