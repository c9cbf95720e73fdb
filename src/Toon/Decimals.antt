-- ===== src/Toon/Decimals.antt =====
-- The decimal digits of a length in the headers of src/utils/toon-encoder.ts: the fuel is enough.
use b2_mcp.Base.{
  Bool-cases, [], arith, false, inl, inr, ltb, suc, zero, ℕ, ◌%◌, ◌*◌, ◌++◌, ◌+◌, ◌-◌, ◌/◌, ◌<◌,
  ◌∷◌, ◌≡◌,
}
use b2_mcp.Toon.Values.{Text}
use b2_mcp.Toon.Columns.{decimal, decimal_digits}

-- The number that some digits stand for, after those of `n`.
abbrev pub number_from : ℕ → Text → ℕ
number_from n [] = n
number_from n (c ∷ s) = number_from (10 * n + (c - 48)) s

number_from-append :
    (n : ℕ) (s : Text) (d : ℕ) → number_from n (s ++ (48 + d) ∷ []) ≡ 10 * number_from n s + d
number_from-append n [] d = omega arith
number_from-append n (c ∷ s) d = number_from-append (10 * n + (c - 48)) s d

shorter : (n fuel : ℕ) → ltb n 10 ≡ false → n < suc fuel → n / 10 < fuel
shorter n fuel large h = ground (arith, large, h)

quotient : (n : ℕ) → 10 * (n / 10) + n % 10 ≡ n
quotient n = omega arith

digits-number : (fuel n : ℕ) → n < fuel → number_from 0 (decimal_digits fuel n) ≡ n
digits-number zero n h = absurd (omega (arith, h))
digits-number (suc fuel) n h = elim (Bool-cases (ltb n 10)) [
  | inl small ↦ rw small (ground arith)
  | inr large ↦
      rw
        (
          large,
          number_from-append 0 (decimal_digits fuel (n / 10)) (n % 10),
          digits-number fuel (n / 10) (shorter n fuel large h),
        )
        (quotient n)
]

-- The digits of a number stand for it.
pub decimal_lem : (n : ℕ) → number_from 0 (decimal n) ≡ n
decimal_lem n = digits-number (suc n) n (omega arith)
