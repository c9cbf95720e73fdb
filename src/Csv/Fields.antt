-- ===== src/Csv/Fields.antt =====
-- The loop of parseCsv over a quoted field and the separator after it.
use b2_mcp.Base.{
  ==_iff, Bool-cases, List, [], ap, append-nil, append_assoc, false, if◌then◌else◌, inl, inr, refl,
  true, ℕ, ◌++◌, ◌==◌, ◌∙◌, ◌∷◌, ◌≡◌,
}
use b2_mcp.Csv.{Scan, Units, csv_loop, next_is, scan_unit, takes_next}

-- A field's text within quotes: each quote twice.
pub doubled : Units → Units
doubled [] = []
doubled (c ∷ s) = if c == 34 then 34 ∷ 34 ∷ doubled s else c ∷ doubled s

pub step_one :
    (s : Scan) (c : ℕ) (rest : Units)
    → takes_next s.in_quotes c rest ≡ false
    → csv_loop s (c ∷ rest) ≡ csv_loop (scan_unit s c rest) rest
unfolding csv_loop
step_one s c [] h = refl
step_one s c (d ∷ rest) h = rw (h, csv_loop) refl

pub step_two :
    (s : Scan) (c d : ℕ) (rest : Units)
    → takes_next s.in_quotes c (d ∷ rest) ≡ true
    → csv_loop s (c ∷ d ∷ rest) ≡ csv_loop (scan_unit s c (d ∷ rest)) rest
unfolding csv_loop
step_two s c d rest h = rw (h, csv_loop) refl

module _ (rows : List (List Units)) (row : List Units) where
  abbrev pub in_field : Units → Scan
  in_field f = record { rows = rows; row = row; field = f; in_quotes = true }

  abbrev pub after_field : Units → Scan
  after_field f = record { rows = rows; row = row; field = f; in_quotes = false }

  loop-close :
      (f rest : Units)
      → next_is 34 rest ≡ false
      → csv_loop (in_field f) (34 ∷ rest) ≡ csv_loop (after_field f) rest
  unfolding scan_unit takes_next
  loop-close f rest h = step_one (in_field f) 34 rest h ∙ (rw h refl)

  loop-quote :
      (f rest : Units)
      → csv_loop (in_field f) (34 ∷ 34 ∷ rest) ≡ csv_loop (in_field (f ++ 34 ∷ [])) rest
  unfolding scan_unit takes_next
  loop-quote f rest = step_two (in_field f) 34 34 rest refl

  loop-unit :
      (f : Units) (c : ℕ) (rest : Units)
      → (c == 34) ≡ false
      → csv_loop (in_field f) (c ∷ rest) ≡ csv_loop (in_field (f ++ c ∷ [])) rest
  unfolding scan_unit takes_next
  loop-unit f c rest other = step_one (in_field f) c rest (rw other refl) ∙ (rw other refl)

  pub loop-doubled :
      (f s rest : Units)
      → next_is 34 rest ≡ false
      → csv_loop (in_field f) (doubled s ++ 34 ∷ rest) ≡ csv_loop (after_field (f ++ s)) rest
  unfolding doubled
  loop-doubled f [] rest h = rw (append-nil f) (loop-close f rest h)
  loop-doubled f (c ∷ s) rest h = elim (Bool-cases (c == 34)) [
    | inl quote ↦
        rw (quote, (==_iff c 34).0 quote)
          (loop-quote f (doubled s ++ 34 ∷ rest)
            ∙ loop-doubled (f ++ 34 ∷ []) s rest h
            ∙ ap (λ x. csv_loop (after_field x) rest) (append_assoc f (34 ∷ []) s))
    | inr other ↦ rw other (
        loop-unit f c (doubled s ++ 34 ∷ rest) other
        ∙ loop-doubled (f ++ c ∷ []) s rest h
        ∙ ap (λ x. csv_loop (after_field x) rest) (append_assoc f (c ∷ []) s))
  ]
