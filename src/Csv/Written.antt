-- ===== src/Csv/Written.antt =====
-- What parseCsv of src/b2/insights.ts reads in a table that is written with each field quoted.
use b2_mcp.Base.{
  All, List, [], ap, append-nil, append_assoc, false, map, refl, subst, sym, ◌++◌, ◌∙◌, ◌∷◌, ◌≡◌,
}
use b2_mcp.Csv.{Units, csv_loop, csv_rows, is_blank_row, last_row, next_is, scan_unit, takes_next}
use b2_mcp.Csv.Fields.{after_field, doubled, in_field, loop-doubled, step_one, step_two}

-- The two line ends: "\n" and "\r\n".
pub data LineEnd : Type 0 where
  lf crlf : LineEnd

abbrev pub line_end : LineEnd → Units → Units
line_end lf rest = 10 ∷ rest
line_end crlf rest = 13 ∷ 10 ∷ rest

-- A row has a first field; what follows it is written behind it.
abbrev pub write_field : Units → Units → Units
write_field s rest = 34 ∷ doubled s ++ 34 ∷ rest

abbrev pub write_row : Units → List Units → Units → Units
write_row f [] rest = write_field f rest
write_row f (g ∷ fs) rest = write_field f (44 ∷ write_row g fs rest)

abbrev pub write_rows : LineEnd → List (Units × List Units) → Units
write_rows e [] = []
write_rows e ((f, fs) ∷ rows) = write_row f fs (line_end e (write_rows e rows))

abbrev pub fields : Units × List Units → List Units
fields (f, fs) = f ∷ fs

-- A row of one empty field is taken for an empty line.
abbrev pub IsKept : Units × List Units → Type 0
IsKept r = is_blank_row (fields r) ≡ false

module _ (rows : List (List Units)) (row : List Units) where
  loop-open :
      (f rest : Units)
      → csv_loop (after_field rows row f) (34 ∷ rest) ≡ csv_loop (in_field rows row f) rest
  unfolding scan_unit takes_next
  loop-open f rest = step_one (after_field rows row f) 34 rest refl

  loop-comma :
      (f rest : Units)
      → csv_loop (after_field rows row f) (44 ∷ rest)
        ≡ csv_loop (after_field rows (row ++ f ∷ []) []) rest
  unfolding scan_unit takes_next
  loop-comma f rest = step_one (after_field rows row f) 44 rest refl

  loop-line_end :
      (e : LineEnd) (f rest : Units)
      → is_blank_row (row ++ f ∷ []) ≡ false
      → csv_loop (after_field rows row f) (line_end e rest)
        ≡ csv_loop (after_field (rows ++ (row ++ f ∷ []) ∷ []) [] []) rest
  unfolding scan_unit takes_next
  loop-line_end lf f rest h = step_one (after_field rows row f) 10 rest refl ∙ (rw h refl)
  loop-line_end crlf f rest h = step_two (after_field rows row f) 13 10 rest refl ∙ (rw h refl)

  loop-field :
      (s rest : Units)
      → next_is 34 rest ≡ false
      → csv_loop (after_field rows row []) (write_field s rest)
        ≡ csv_loop (after_field rows row s) rest
  loop-field s rest h = loop-open [] (doubled s ++ 34 ∷ rest) ∙ loop-doubled rows row [] s rest h

loop-row :
    (rows : List (List Units)) (row : List Units) (e : LineEnd) (f : Units) (fs : List Units)
    (rest : Units)
    → is_blank_row (row ++ f ∷ fs) ≡ false
    → csv_loop (after_field rows row []) (write_row f fs (line_end e rest))
      ≡ csv_loop (after_field (rows ++ (row ++ f ∷ fs) ∷ []) [] []) rest
loop-row rows row lf f [] rest h =
    loop-field rows row f (10 ∷ rest) refl ∙ loop-line_end rows row lf f rest h
loop-row rows row crlf f [] rest h =
    loop-field rows row f (13 ∷ 10 ∷ rest) refl ∙ loop-line_end rows row crlf f rest h
loop-row rows row e f (g ∷ fs) rest h =
    loop-field rows row f (44 ∷ write_row g fs (line_end e rest)) refl
    ∙ loop-comma rows row f (write_row g fs (line_end e rest))
    ∙ subst
        (λ x.
          csv_loop (after_field rows (row ++ f ∷ []) []) (write_row g fs (line_end e rest))
          ≡ csv_loop (after_field (rows ++ x ∷ []) [] []) rest)
        (append_assoc row (f ∷ []) (g ∷ fs))
        (loop-row rows (row ++ f ∷ []) e g fs rest
          (subst (λ x. is_blank_row x ≡ false) (sym (append_assoc row (f ∷ []) (g ∷ fs))) h))

loop-rows :
    (done : List (List Units)) (e : LineEnd) (rs : List (Units × List Units))
    → All IsKept rs
    → csv_loop (after_field done [] []) (write_rows e rs)
      ≡ after_field (done ++ map fields rs) [] []
unfolding csv_loop
loop-rows done e [] k = rw (append-nil done) refl
loop-rows done e ((f, fs) ∷ rs) (h, k) =
    loop-row done [] e f fs (write_rows e rs) h
    ∙ loop-rows (done ++ (f ∷ fs) ∷ []) e rs k
    ∙ ap (λ x. after_field x [] []) (append_assoc done ((f ∷ fs) ∷ []) (map fields rs))

-- A table that is written with its fields quoted, and quotes in them doubled, is read back row by row
-- and field by field, commas, quotes and line ends within the fields included; only a row that is one
-- empty field is lost.
pub csv_rows-write_rows :
    (e : LineEnd) (rs : List (Units × List Units))
    → All IsKept rs
    → csv_rows (write_rows e rs) ≡ map fields rs
unfolding csv_rows last_row
csv_rows-write_rows e rs k = rw (loop-rows [] e rs k) refl
