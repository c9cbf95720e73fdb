-- ===== src/Toon/Bare.antt =====
-- The cells of src/utils/toon-encoder.ts that stand without quotes have no comma and no quote.
use b2_mcp.Base.{
  Bool, Option, [], any, arith, false, none, not, refl, some, true, ℕ, ◌&&◌, ◌++◌, ◌==◌, ◌||◌, ◌∷◌,
  ◌≡◌,
}
use b2_mcp.Toon.Values.{Text}
use b2_mcp.Toon.Strings.{
  after_digits, after_exponent, after_fraction, after_sign, at_end, has_control_character,
  is_literal_word, is_numeric_like, is_safe_unquoted, is_structural, skip_digits, then_match,
}
use b2_mcp.Toon.Reader.{outside, split_cells}
use b2_mcp.Toon.Quoted.{onto}

-- The units that end a cell or a line: `,`, `"` and the line feed.
abbrev pub separates : ℕ → Bool
separates c = (c == 44) || (c == 34) || (c == 10)

pub split_bare :
    (s rest : Text)
    → any separates s ≡ false
    → split_cells outside (s ++ rest) ≡ onto s (split_cells outside rest)
unfolding split_cells
split_bare [] rest h = refl
split_bare (c ∷ s) rest h = ground (arith, split_bare s rest)

skip_digits-bare : (s : Text) → any separates (skip_digits s) ≡ false → any separates s ≡ false
skip_digits-bare [] h = refl
skip_digits-bare (c ∷ s) h = ground (arith, skip_digits-bare s)

-- What is left of a text after some match, with no separator in what was matched.
pub record IsMatch (s : Text) (o : Option Text) : Type 0 where
  pub bare : (r : Text) → o ≡ some r → any separates r ≡ false → any separates s ≡ false

after_digits-IsMatch : (s : Text) → IsMatch s (after_digits s)
after_digits-IsMatch [] = record { bare = λ r e h. refl }
after_digits-IsMatch (c ∷ s) = record { bare = λ r e h. ground (arith, skip_digits-bare s) }

after_sign-bare : (s : Text) → any separates (after_sign s) ≡ false → any separates s ≡ false
after_sign-bare [] h = refl
after_sign-bare (c ∷ s) h = ground arith

after_fraction-IsMatch : (s : Text) → IsMatch s (after_fraction s)
after_fraction-IsMatch [] = record { bare = λ r e h. refl }
after_fraction-IsMatch (c ∷ s) = record {
  bare = λ r e h. ground (arith, (after_digits-IsMatch s).bare r);
}

after_exponent-IsMatch : (s : Text) → IsMatch s (after_exponent s)
after_exponent-IsMatch [] = record { bare = λ r e h. refl }
after_exponent-IsMatch (c ∷ s) = record {
  bare = λ r e h. ground (arith, (after_digits-IsMatch (after_sign s)).bare r, after_sign-bare s);
}

then_match-IsMatch :
    (s : Text) (o : Option Text) (f : Text → Option Text)
    → IsMatch s o
    → ((r : Text) → IsMatch r (f r))
    → IsMatch s (then_match o f)
then_match-IsMatch s none f m n = record { bare = λ r e h. cc }
then_match-IsMatch s (some r) f m n = record { bare = λ q e h. m.bare r refl ((n r).bare q e h) }

at_end-bare : (s : Text) (o : Option Text) → IsMatch s o → at_end o ≡ true → any separates s ≡ false
at_end-bare s none m h = cc
at_end-bare s (some []) m h = m.bare [] refl refl
at_end-bare s (some (c ∷ r)) m h = cc

pub numeric-bare : (s : Text) → is_numeric_like s ≡ true → any separates s ≡ false
unfolding is_numeric_like
numeric-bare s h = after_sign-bare s (
    at_end-bare (after_sign s) _
      (then_match-IsMatch (after_sign s) _ after_exponent
        (then_match-IsMatch (after_sign s) _ after_fraction (after_digits-IsMatch (after_sign s))
          after_fraction-IsMatch)
        after_exponent-IsMatch)
      h)

structural-bare :
    (s : Text)
    → any is_structural s ≡ false
    → has_control_character s ≡ false
    → any separates s ≡ false
structural-bare [] h k = refl
structural-bare (c ∷ s) h k = ground (arith, structural-bare s)

-- What a text that needs no quotes is not.
pub record IsBare (s : Text) : Type 0 where
  pub bare : any separates s ≡ false
  pub no_number : is_numeric_like s ≡ false
  pub no_word : is_literal_word s ≡ false
  pub some_char : (c : ℕ) × ((r : Text) × (s ≡ c ∷ r))

four_of_not :
    (p q w n st ct d e : Bool)
    → (not p && not q && not w && not n && not st && not ct && not d && not e) ≡ true
    → (w ≡ false) × ((n ≡ false) × ((st ≡ false) × (ct ≡ false)))
four_of_not p q w n st ct d e h = ground arith

pub safe-IsBare : (s : Text) → is_safe_unquoted s ≡ true → IsBare s
unfolding is_safe_unquoted
safe-IsBare [] h = cc
safe-IsBare (c ∷ s) h =
    let (w, (n, (st, ct))) = four_of_not _ _ _ _ _ _ _ _ h in
    record {
      bare = structural-bare (c ∷ s) st ct;
      no_number = n;
      no_word = w;
      some_char = (c, (s, refl));
    }
