-- ===== src/Toon/Breaks.antt =====
-- No text that src/utils/toon-encoder.ts puts in a line has a line feed.
use b2_mcp.Base.{
  All, Bool, List, [], all, any, arith, false, if◌then◌else◌, refl, true, ℕ, ◌++◌, ◌==◌, ◌∷◌, ◌≡◌,
}
use b2_mcp.Toon.Values.{
  Entries, Items, Text, Value, arr, bool, cons, end, entry, nil, null, num, obj, str, undefined,
}
use b2_mcp.Toon.Surrogates.{Result, assert_no_lone_surrogate, ok, thrown, ◌>>=◌, ◌>>◌}
use b2_mcp.Toon.Strings.{
  encode_and_join_primitives, encode_key, encode_primitive, encode_string_literal, escape_char,
  escape_string, is_key_char, is_numeric_like, is_plain_key, is_safe_unquoted, join_cells, quoted,
  traverse,
}
use b2_mcp.Toon.Bare.{numeric-bare, safe-IsBare, separates}

abbrev pub is_break : ℕ → Bool
is_break c = c == 10

abbrev pub NoBreak : Text → Type 0
NoBreak t = any is_break t ≡ false

-- What holds of the result, where there is one.
abbrev pub Returns : {A : Type 0} → (A → Type 0) → Result A → Type 0
Returns P (thrown e) = Unit
Returns P (ok a) = P a

pub bind-Returns :
    {A B : Type 0} (P : A → Type 0) (Q : B → Type 0) (m : Result A) (f : A → Result B)
    → Returns P m
    → ((a : A) → P a → Returns Q (f a))
    → Returns Q (m >>= f)
bind-Returns P Q (thrown e) f h k = tt
bind-Returns P Q (ok a) f h k = k a h

pub traverse-Returns :
    {A B : Type 0} (P : A → Type 0) (Q : B → Type 0) (f : A → Result B) (xs : List A)
    → ((a : A) → P a → Returns Q (f a))
    → All P xs
    → Returns (All Q) (traverse f xs)
traverse-Returns P Q f [] k h = tt
traverse-Returns P Q f (x ∷ xs) k (p, h) = bind-Returns Q (All Q) (f x) _ (k x p) (λ b q.
    bind-Returns (All Q) (All Q) (traverse f xs) _ (traverse-Returns P Q f xs k h)
      (λ bs qs. (q, qs)))

pub append-NoBreak : (s t : Text) → NoBreak s → NoBreak t → NoBreak (s ++ t)
append-NoBreak [] t h k = k
append-NoBreak (c ∷ s) t h k = ground (arith, append-NoBreak s t)

escape_char-NoBreak : (c : ℕ) → NoBreak (escape_char c)
escape_char-NoBreak c = ground arith

escape_string-NoBreak : (s : Text) → NoBreak (escape_string s)
unfolding escape_string
escape_string-NoBreak [] = refl
escape_string-NoBreak (c ∷ s) =
    append-NoBreak (escape_char c) (escape_string s) (escape_char-NoBreak c)
      (escape_string-NoBreak s)

quoted-NoBreak : (s : Text) → NoBreak (quoted s)
quoted-NoBreak s = append-NoBreak (escape_string s) (34 ∷ []) (escape_string-NoBreak s) refl

bare-NoBreak : (s : Text) → any separates s ≡ false → NoBreak s
bare-NoBreak [] h = refl
bare-NoBreak (c ∷ s) h = ground (arith, bare-NoBreak s)

key-NoBreak : (s : Text) → all is_key_char s ≡ true → NoBreak s
key-NoBreak [] h = refl
key-NoBreak (c ∷ s) h = ground (arith, key-NoBreak s)

plain_key-NoBreak : (s : Text) → is_plain_key s ≡ true → NoBreak s
plain_key-NoBreak [] h = refl
plain_key-NoBreak (c ∷ s) h = ground (arith, key-NoBreak s)

if-NoBreak :
    (b : Bool) (s t : Text) → (b ≡ true → NoBreak s) → NoBreak t → NoBreak (if b then s else t)
if-NoBreak true s t h k = h refl
if-NoBreak false s t h k = k

checked-Returns : (m : Result (Unit {0})) (t : Text) → NoBreak t → Returns NoBreak (m >> ok t)
checked-Returns (thrown e) t h = tt
checked-Returns (ok u) t h = h

literal-NoBreak : (s : Text) → Returns NoBreak (encode_string_literal s)
unfolding encode_string_literal
literal-NoBreak s = checked-Returns (assert_no_lone_surrogate s "string value") _ (
    if-NoBreak (is_safe_unquoted s) s (quoted s) (λ h. bare-NoBreak s (safe-IsBare s h).bare)
      (quoted-NoBreak s))

pub encode_key-NoBreak : (s : Text) → Returns NoBreak (encode_key s)
unfolding encode_key
encode_key-NoBreak s =
    checked-Returns (assert_no_lone_surrogate s "object key") _
      (if-NoBreak (is_plain_key s) s (quoted s) (plain_key-NoBreak s) (quoted-NoBreak s))

-- Each number in a value is finite, so that its text is a decimal number.
abbrev mutual
  pub HasNumbers : Value → Type 0
  HasNumbers (num s) = is_numeric_like s ≡ true
  HasNumbers (arr xs) = HasNumbersItems xs
  HasNumbers (obj es) = HasNumbersEntries es
  HasNumbers _ = Unit

  pub HasNumbersItems : Items → Type 0
  HasNumbersItems nil = Unit
  HasNumbersItems (cons v xs) = HasNumbers v × HasNumbersItems xs

  pub HasNumbersEntries : Entries → Type 0
  HasNumbersEntries end = Unit
  HasNumbersEntries (entry k v es) = HasNumbers v × HasNumbersEntries es

pub primitive-NoBreak : (v : Value) → HasNumbers v → Returns NoBreak (encode_primitive v)
unfolding encode_primitive
primitive-NoBreak undefined h = tt
primitive-NoBreak null h = refl
primitive-NoBreak (bool true) h = refl
primitive-NoBreak (bool false) h = refl
primitive-NoBreak (num s) h = bare-NoBreak s (numeric-bare s h)
primitive-NoBreak (str s) h = literal-NoBreak s
primitive-NoBreak (arr xs) h = tt
primitive-NoBreak (obj es) h = tt

pub join_cells-NoBreak : (ts : List Text) → All NoBreak ts → NoBreak (join_cells ts)
join_cells-NoBreak [] h = refl
join_cells-NoBreak (t ∷ []) (h, hs) = h
join_cells-NoBreak (t ∷ u ∷ ts) (h, hs) =
    append-NoBreak t (44 ∷ join_cells (u ∷ ts)) h (join_cells-NoBreak (u ∷ ts) hs)

pub row-NoBreak :
    (vs : List Value) → All HasNumbers vs → Returns NoBreak (encode_and_join_primitives vs)
unfolding encode_and_join_primitives
row-NoBreak vs h =
    bind-Returns (All NoBreak) NoBreak (traverse encode_primitive vs) _
      (traverse-Returns HasNumbers NoBreak encode_primitive vs primitive-NoBreak h)
      join_cells-NoBreak
