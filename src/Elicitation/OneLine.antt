-- ===== src/Elicitation/OneLine.antt =====
-- The prompt of src/utils/destructive-elicitation.ts stays on one line, whatever the arguments hold.
use b2_mcp.Base.{
  All, All-append, All-take, Bool, Bool-cases, List, Option, [], all, arith, codes, inl, inr,
  length, ltb, ltb_iff, map, none, not, refl, some, suc, take, true, zero, ℕ, ◌%◌, ◌&&◌, ◌++◌, ◌+◌,
  ◌-◌, ◌/◌, ◌<◌, ◌==◌, ◌||◌, ◌∷◌, ◌≡◌,
}
use b2_mcp.Csv.{Units, is_nil, is_white_space, trim, trim_end, trim_start}
use b2_mcp.Elicitation.Prompt.{
  count_items, detail, drop_space, includes_units, joined, list_detail, list_items, more,
  prompt_detail, prompt_list_detail, prompt_target_detail_limit, prompt_truncation_detail,
  redaction, safe_prompt_value, sanitized, sentence, shortened, some_values, squeeze, text_of_value,
}
use b2_mcp.Toon.Columns.{decimal, decimal_digits}
use b2_mcp.Json.{Json, arr}

-- No white space but plain spaces.
abbrev pub IsPlain : ℕ → Type 0
IsPlain c = is_white_space c ≡ true → c ≡ 32

abbrev pub IsOneLine : Units → Type 0
IsOneLine s = All IsPlain s

drop_space-IsOneLine : (s : Units) → IsOneLine s → IsOneLine (drop_space s)
drop_space-IsOneLine [] h = tt
drop_space-IsOneLine (c ∷ s) (p, h) = elim (Bool-cases (c == 32)) [
  | inl space ↦ rw space h
  | inr other ↦ rw other (p, h)
]

squeeze-IsOneLine : (s : Units) → IsOneLine (squeeze s)
squeeze-IsOneLine [] = tt
squeeze-IsOneLine (c ∷ s) = elim (Bool-cases (is_white_space c)) [
  | inl white ↦ rw white (λ e. refl, drop_space-IsOneLine (squeeze s) (squeeze-IsOneLine s))
  | inr black ↦ rw black (λ e. cc, squeeze-IsOneLine s)
]

trim_start-IsOneLine : (s : Units) → IsOneLine s → IsOneLine (trim_start s)
trim_start-IsOneLine [] h = tt
trim_start-IsOneLine (c ∷ s) (p, h) = elim (Bool-cases (is_white_space c)) [
  | inl white ↦ rw white (trim_start-IsOneLine s h)
  | inr black ↦ rw black (p, h)
]

trim_end-IsOneLine : (s : Units) → IsOneLine s → IsOneLine (trim_end s)
trim_end-IsOneLine [] h = tt
trim_end-IsOneLine (c ∷ s) (p, h) = elim (Bool-cases (is_nil (trim_end s) && is_white_space c)) [
  | inl ended ↦ rw ended tt
  | inr goes_on ↦ rw goes_on (p, trim_end-IsOneLine s h)
]

trim-IsOneLine : (s : Units) → IsOneLine s → IsOneLine (trim s)
trim-IsOneLine s h = trim_end-IsOneLine (trim_start s) (trim_start-IsOneLine s h)

-- To settle a literal by computation.
abbrev pub plain_units : Units → Bool
plain_units s = all (λ c. not (is_white_space c) || (c == 32)) s

pub plain : (s : Units) → plain_units s ≡ true → IsOneLine s
plain [] h = tt
plain (c ∷ s) h = (λ white. ground (arith, h, white), plain s (ground (arith, h)))

pub append-IsOneLine : (s t : Units) → IsOneLine s → IsOneLine t → IsOneLine (s ++ t)
append-IsOneLine s t h k = All-append IsPlain s t h k

digit-IsPlain : (d : ℕ) → d < 10 → IsPlain (48 + d)
digit-IsPlain d small white = ground (arith, white)

decimal_digits-IsOneLine : (fuel n : ℕ) → IsOneLine (decimal_digits fuel n)
decimal_digits-IsOneLine zero n = tt
decimal_digits-IsOneLine (suc fuel) n = elim (Bool-cases (ltb n 10)) [
  | inl small ↦ rw small (digit-IsPlain n ((ltb_iff n 10).0 small), tt)
  | inr large ↦ rw large (
      append-IsOneLine (decimal_digits fuel (n / 10)) _ (decimal_digits-IsOneLine fuel (n / 10))
        (digit-IsPlain (n % 10) (omega arith), tt))
]

pub decimal-IsOneLine : (n : ℕ) → IsOneLine (decimal n)
decimal-IsOneLine n = decimal_digits-IsOneLine (suc n) n

pub joined-IsOneLine :
    (sep : Units) (us : List Units) → IsOneLine sep → All IsOneLine us → IsOneLine (joined sep us)
joined-IsOneLine sep [] h k = tt
joined-IsOneLine sep (a ∷ []) h (p, k) = p
joined-IsOneLine sep (a ∷ b ∷ rest) h (p, k) =
    append-IsOneLine (a ++ sep) _ (append-IsOneLine a sep p h) (joined-IsOneLine sep (b ∷ rest) h k)

-- What may be shown of a value.
abbrev pub Shows : (Units → Type 0) → Option Units → Type 0
Shows P none = Unit
Shows P (some u) = P u

shortened-IsOneLine : (s : Units) → IsOneLine s → Shows IsOneLine (shortened s)
shortened-IsOneLine s h = elim (Bool-cases (is_nil s)) [
  | inl empty ↦ rw empty tt
  | inr filled ↦ rw filled (elim (Bool-cases (includes_units redaction s)) [
    | inl secret ↦ rw secret (plain redaction refl)
    | inr public ↦ rw public (elim (Bool-cases (ltb 120 (length s))) [
      | inl long ↦ rw long (
          append-IsOneLine (take 117 s) (codes "...") (All-take IsPlain 117 s h)
            (plain (codes "...") refl))
      | inr short ↦ rw short h
    ])
  ])
]

sentence-IsOneLine :
    (label text : Units) → IsOneLine label → IsOneLine text → IsOneLine (sentence label text)
sentence-IsOneLine label text h k =
    append-IsOneLine (label ++ codes ": " ++ text) (codes ".")
      (append-IsOneLine (label ++ codes ": ") text
        (append-IsOneLine label (codes ": ") h (plain (codes ": ") refl)) k)
      (plain (codes ".") refl)

some_values-IsOneLine :
    (os : List (Option Units)) → All (Shows IsOneLine) os → All IsOneLine (some_values os)
some_values-IsOneLine [] h = tt
some_values-IsOneLine (none ∷ os) (p, h) = some_values-IsOneLine os h
some_values-IsOneLine (some u ∷ os) (p, h) = (p, some_values-IsOneLine os h)

pub truncation-IsOneLine :
    (label : Units) (count : ℕ)
    → IsOneLine label
    → All IsOneLine (prompt_truncation_detail label count)
unfolding prompt_truncation_detail
truncation-IsOneLine label count h = elim (Bool-cases (ltb prompt_target_detail_limit count)) [
  | inl long ↦ rw long (
    sentence-IsOneLine (codes "Additional " ++ label) (decimal (count - prompt_target_detail_limit))
        (append-IsOneLine (codes "Additional ") label (plain (codes "Additional ") refl) h)
        (decimal-IsOneLine (count - prompt_target_detail_limit)),
    tt,
  )
  | inr short ↦ rw short tt
]

module _ (sanitize : Units → Units) where
  pub safe_prompt_value-IsOneLine : (v : Json) → Shows IsOneLine (safe_prompt_value sanitize v)
  unfolding safe_prompt_value
  safe_prompt_value-IsOneLine v = by_text (text_of_value v)
    where
      by_text : (o : Option Units) → Shows IsOneLine (sanitized sanitize o)
      by_text none = tt
      by_text (some text) =
          shortened-IsOneLine (trim (squeeze (sanitize text)))
            (trim-IsOneLine (squeeze (sanitize text)) (squeeze-IsOneLine (sanitize text)))

  detail-IsOneLine :
      (label : Units) (o : Option Units)
      → IsOneLine label
      → Shows IsOneLine o
      → All IsOneLine (detail sanitize label o)
  detail-IsOneLine label none h k = tt
  detail-IsOneLine label (some u) h k = (sentence-IsOneLine label u h k, tt)

  pub prompt_detail-IsOneLine :
      (label : Units) (v : Json) → IsOneLine label → All IsOneLine (prompt_detail sanitize label v)
  unfolding prompt_detail
  prompt_detail-IsOneLine label v h =
      detail-IsOneLine label (safe_prompt_value sanitize v) h (safe_prompt_value-IsOneLine v)

  values-IsOneLine : (vs : List Json) → All (Shows IsOneLine) (map (safe_prompt_value sanitize) vs)
  values-IsOneLine [] = tt
  values-IsOneLine (v ∷ vs) = (safe_prompt_value-IsOneLine v, values-IsOneLine vs)

  more-IsOneLine : (n : ℕ) → IsOneLine (more sanitize n)
  more-IsOneLine n = elim (Bool-cases (ltb 0 n)) [
    | inl omitted ↦ rw omitted (
        append-IsOneLine (codes ", +" ++ decimal n) (codes " more")
          (append-IsOneLine (codes ", +") (decimal n) (plain (codes ", +") refl)
            (decimal-IsOneLine n))
          (plain (codes " more") refl))
    | inr complete ↦ rw complete tt
  ]

  list_detail-IsOneLine :
      (label : Units) (total : ℕ) (us : List Units)
      → IsOneLine label
      → All IsOneLine us
      → All IsOneLine (list_detail sanitize label total us)
  list_detail-IsOneLine label total [] h k = tt
  list_detail-IsOneLine label total (u ∷ us) h k = (
    sentence-IsOneLine label _ h (
        append-IsOneLine (joined (codes ", ") (u ∷ us)) _
          (joined-IsOneLine (codes ", ") (u ∷ us) (plain (codes ", ") refl) k)
          (more-IsOneLine (total - length (u ∷ us)))),
    tt,
  )

  pub prompt_list_detail-IsOneLine :
      (label : Units) (v : Json)
      → IsOneLine label
      → All IsOneLine (prompt_list_detail sanitize label v)
  unfolding prompt_list_detail
  prompt_list_detail-IsOneLine label (arr xs) h =
      list_detail-IsOneLine label (count_items xs) _ h (
        some_values-IsOneLine _
          (values-IsOneLine (take prompt_target_detail_limit (list_items xs))))
  prompt_list_detail-IsOneLine label _ h = tt
