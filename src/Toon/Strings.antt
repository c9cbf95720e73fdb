-- ===== src/Toon/Strings.antt =====
-- Texts and keys in src/utils/toon-encoder.ts: what stands as it is, what is quoted and escaped, and
-- what is refused.
use b2_mcp.Base.{
  Bool, List, Option, [], all, any, codes, false, if◌then◌else◌, ltb, none, not, some, true, ℕ, ◌%◌,
  ◌&&◌, ◌++◌, ◌+◌, ◌/◌, ◌==◌, ◌||◌, ◌∷◌,
}
use b2_mcp.Toon.Surrogates.{
  Result, assert_no_lone_surrogate, between, not_primitive, ok, thrown, ◌>>=◌, ◌>>◌,
}
use b2_mcp.Toon.Values.{Text, Value, bool, null, num, same_text, str}

abbrev pub is_digit : ℕ → Bool
is_digit c = between 48 57 c

abbrev pub skip_digits : Text → Text
skip_digits [] = []
skip_digits (c ∷ s) = let rest = skip_digits s in if is_digit c then rest else c ∷ s

-- `\d+`, `[+-]?`, `(?:\.\d+)?` and `(?:e[+-]?\d+)?`: the text after them, longest match first. What
-- follows digits here is no digit, so that no shorter match could succeed.
abbrev pub after_digits : Text → Option Text
after_digits [] = none
after_digits (c ∷ s) = if is_digit c then some (skip_digits s) else none

abbrev pub after_sign : Text → Text
after_sign [] = []
after_sign (c ∷ s) = if (c == 43) || (c == 45) then s else c ∷ s

abbrev pub after_fraction : Text → Option Text
after_fraction [] = some []
after_fraction (c ∷ s) = if c == 46 then after_digits s else some (c ∷ s)

abbrev pub after_exponent : Text → Option Text
after_exponent [] = some []
after_exponent (c ∷ s) =
    if (c == 101) || (c == 69) then after_digits (after_sign s) else some (c ∷ s)

abbrev pub then_match : Option Text → (Text → Option Text) → Option Text
then_match none f = none
then_match (some s) f = f s

abbrev pub at_end : Option Text → Bool
at_end (some []) = true
at_end _ = false

-- `NUMERIC_LIKE_PATTERN`
unfoldable pub is_numeric_like : Text → Bool
is_numeric_like s =
    at_end (then_match (then_match (after_digits (after_sign s)) after_fraction) after_exponent)

abbrev pub has_control_character : Text → Bool
has_control_character value = any (λ c. ltb c 32) value

abbrev pub is_blank : ℕ → Bool
is_blank c = (c == 32) || (c == 9)

abbrev pub starts_with : (ℕ → Bool) → Text → Bool
starts_with p [] = false
starts_with p (c ∷ s) = p c

abbrev pub ends_with : (ℕ → Bool) → Text → Bool
ends_with p [] = false
ends_with p (c ∷ []) = p c
ends_with p (c ∷ d ∷ s) = ends_with p (d ∷ s)

-- `:`, `"`, `\`, `[`, `]`, `{`, `}` and the delimiter `,`
abbrev pub is_structural : ℕ → Bool
is_structural c =
    (c == 58)
    || (c == 34)
    || (c == 92)
    || (c == 91)
    || (c == 93)
    || (c == 123)
    || (c == 125)
    || (c == 44)

abbrev pub is_literal_word : Text → Bool
is_literal_word s =
    same_text s (codes "true") || same_text s (codes "false") || same_text s (codes "null")

unfoldable pub is_safe_unquoted : Text → Bool
is_safe_unquoted [] = false
is_safe_unquoted (c ∷ s) =
    let value = c ∷ s in
    not (is_blank c)
    && not (ends_with is_blank value)
    && not (is_literal_word value)
    && not (is_numeric_like value)
    && not (any is_structural value)
    && not (has_control_character value)
    && not (c == 45)
    && not (c == 35)

-- A digit of `toString(16)`.
abbrev pub hex_digit : ℕ → ℕ
hex_digit n = if ltb n 10 then 48 + n else 87 + n

abbrev pub escape_char : ℕ → Text
escape_char c =
    if c == 92
    then 92 ∷ 92 ∷ []
    else if c == 34
    then 92 ∷ 34 ∷ []
    else if c == 10
    then 92 ∷ 110 ∷ []
    else if c == 13
    then 92 ∷ 114 ∷ []
    else if c == 9
    then 92 ∷ 116 ∷ []
    else if ltb c 32
    then 92 ∷ 117 ∷ 48 ∷ 48 ∷ hex_digit (c / 16) ∷ hex_digit (c % 16) ∷ []
    else c ∷ []

-- The source goes by code points; the two units of a pair are both copied.
unfoldable pub escape_string : Text → Text
escape_string [] = []
escape_string (c ∷ s) = escape_char c ++ escape_string s

abbrev pub quoted : Text → Text
quoted s = 34 ∷ escape_string s ++ 34 ∷ []

unfoldable pub encode_string_literal : Text → Result Text
encode_string_literal value = do
  assert_no_lone_surrogate value "string value"
  ok (if is_safe_unquoted value then value else quoted value)

abbrev pub is_letter : ℕ → Bool
is_letter c = between 65 90 c || between 97 122 c

-- `/^[A-Z_][\w.]*$/i`
abbrev pub is_key_char : ℕ → Bool
is_key_char c = is_letter c || is_digit c || (c == 95) || (c == 46)

abbrev pub is_plain_key : Text → Bool
is_plain_key [] = false
is_plain_key (c ∷ s) = (is_letter c || (c == 95)) && all is_key_char s

unfoldable pub encode_key : Text → Result Text
encode_key key = do
  assert_no_lone_surrogate key "object key"
  ok (if is_plain_key key then key else quoted key)

abbrev pub encode_boolean : Bool → Text
encode_boolean true = codes "true"
encode_boolean false = codes "false"

unfoldable pub encode_primitive : Value → Result Text
encode_primitive null = ok (codes "null")
encode_primitive (bool b) = ok (encode_boolean b)
encode_primitive (num s) = ok s
encode_primitive (str s) = encode_string_literal s
encode_primitive _ = thrown not_primitive

-- `texts.join(",")`
abbrev pub join_cells : List Text → Text
join_cells [] = []
join_cells (a ∷ []) = a
join_cells (a ∷ b ∷ rest) = a ++ 44 ∷ join_cells (b ∷ rest)

-- `values.map(f)` where f may throw.
abbrev pub traverse {ℓ κ} : {A : Type ℓ} {B : Type κ} → (A → Result B) → List A → Result (List B)
traverse f [] = ok []
traverse f (a ∷ xs) = do b ← f a; bs ← traverse f xs; ok (b ∷ bs)

unfoldable pub encode_and_join_primitives : List Value → Result Text
encode_and_join_primitives vs = do cells ← traverse encode_primitive vs; ok (join_cells cells)
