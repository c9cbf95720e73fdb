-- ===== src/Csv/Tests.antt =====
-- Runs of parseCsv of src/b2/insights.ts, and the theorem at a concrete table.
use b2_mcp.Base.{[], codes, refl, ◌∷◌, ◌≡◌}
use b2_mcp.Csv.{csv_loop, csv_rows, last_row, parse_csv, scan_unit, takes_next}
use b2_mcp.Csv.Written.{crlf, csv_rows-write_rows, write_rows}

quoted_fields :
    parse_csv (codes "id, n\n\"a,1\",2\n\n3")
    ≡ ((codes "id", codes "a,1") ∷ (codes "n", codes "2") ∷ [])
      ∷ ((codes "id", codes "3") ∷ (codes "n", []) ∷ [])
      ∷ []
unfolding parse_csv csv_rows csv_loop scan_unit takes_next last_row
quoted_fields = refl

-- Fields with a comma, a quote and a line end.
csv_rows-write_rows_example :
    csv_rows (write_rows crlf ((44 ∷ [], (34 ∷ 97 ∷ []) ∷ []) ∷ (10 ∷ [], []) ∷ []))
    ≡ ((44 ∷ []) ∷ (34 ∷ 97 ∷ []) ∷ []) ∷ ((10 ∷ []) ∷ []) ∷ []
csv_rows-write_rows_example =
    csv_rows-write_rows crlf ((44 ∷ [], (34 ∷ 97 ∷ []) ∷ []) ∷ (10 ∷ [], []) ∷ [])
      (refl, (refl, tt))
