-- ===== src/Toon/Utf16.antt =====
-- What `assertNoLoneSurrogate` of src/utils/toon-encoder.ts accepts, described without indices.
use b2_mcp.Base.{
  Bool-cases, String, [], any, arith, false, inl, inr, refl, sym, true, ℕ, ◌+◌, ◌↔◌, ◌∙◌, ◌∷◌, ◌≡◌,
}
use b2_mcp.Toon.Values.{Text}
use b2_mcp.Toon.Surrogates.{
  assert_no_lone_surrogate, is_pair, is_surrogate, ok, surrogate_scan, thrown, unpaired_surrogate,
}

-- A text of code points: each a unit that is no surrogate, or a high and a low one.
pub data IsUtf16 : Text → Type 0 where
  empty : IsUtf16 []
  unit : (c : ℕ) (s : Text) → is_surrogate c ≡ false → IsUtf16 s → IsUtf16 (c ∷ s)
  pair :
      (c d : ℕ) (s : Text)
      → is_surrogate c ≡ true
      → is_pair c d ≡ true
      → IsUtf16 s
      → IsUtf16 (c ∷ d ∷ s)

scan_unit :
    (context : String) (i c : ℕ) (s : Text)
    → is_surrogate c ≡ false
    → surrogate_scan context i (c ∷ s) ≡ surrogate_scan context (i + 1) s
unfolding surrogate_scan
scan_unit context i c [] fine = rw (fine, surrogate_scan) refl
scan_unit context i c (d ∷ s) fine = rw (fine, surrogate_scan) refl

scan_pair :
    (context : String) (i c d : ℕ) (s : Text)
    → is_surrogate c ≡ true
    → is_pair c d ≡ true
    → surrogate_scan context i (c ∷ d ∷ s) ≡ surrogate_scan context (i + 2) s
unfolding surrogate_scan
scan_pair context i c d s high low = rw (high, low, surrogate_scan) refl

scan_lone :
    (context : String) (i c d : ℕ) (s : Text)
    → is_surrogate c ≡ true
    → is_pair c d ≡ false
    → surrogate_scan context i (c ∷ d ∷ s) ≡ thrown (unpaired_surrogate context c i)
unfolding surrogate_scan
scan_lone context i c d s high lone = rw (high, lone, surrogate_scan) refl

scan-IsUtf16 :
    (context : String) (i : ℕ) (s : Text) → surrogate_scan context i s ≡ ok tt → IsUtf16 s
unfolding surrogate_scan
scan-IsUtf16 context i [] h = empty
scan-IsUtf16 context i (c ∷ []) h = elim (Bool-cases (is_surrogate c)) [
  | inl lone ↦ absurd (ground (arith, lone, h))
  | inr fine ↦ unit c [] fine empty
]
scan-IsUtf16 context i (c ∷ d ∷ s) h = elim (Bool-cases (is_surrogate c)) [
  | inr fine ↦
      unit c (d ∷ s) fine
        (scan-IsUtf16 context (i + 1) (d ∷ s) (sym (scan_unit context i c (d ∷ s) fine) ∙ h))
  | inl high ↦ elim (Bool-cases (is_pair c d)) [
    | inl low ↦
        pair c d s high low
          (scan-IsUtf16 context (i + 2) s (sym (scan_pair context i c d s high low) ∙ h))
    | inr lone ↦ absurd (cc (scan_lone context i c d s high lone, h))
  ]
]

IsUtf16-scan :
    (context : String) (i : ℕ) {s : Text} → IsUtf16 s → surrogate_scan context i s ≡ ok tt
unfolding surrogate_scan
IsUtf16-scan context i empty = refl
IsUtf16-scan context i (unit c s fine u) =
    scan_unit context i c s fine ∙ IsUtf16-scan context (i + 1) u
IsUtf16-scan context i (pair c d s high low u) =
    scan_pair context i c d s high low ∙ IsUtf16-scan context (i + 2) u

no_surrogate-IsUtf16 : (s : Text) → any is_surrogate s ≡ false → IsUtf16 s
no_surrogate-IsUtf16 [] h = empty
no_surrogate-IsUtf16 (c ∷ s) h =
    unit c s (ground (arith, h)) (no_surrogate-IsUtf16 s (ground (arith, h)))

-- A text is refused just when it is not UTF-16: each high surrogate has a low one next, and no low
-- one stands alone.
pub assert_no_lone_surrogate_iff :
    (s : Text) (context : String) → (assert_no_lone_surrogate s context ≡ ok tt) ↔ IsUtf16 s
unfolding assert_no_lone_surrogate
assert_no_lone_surrogate_iff s context = elim (Bool-cases (any is_surrogate s)) [
  | inl some_surrogate ↦ rw some_surrogate (scan-IsUtf16 context 0 s, IsUtf16-scan context 0)
  | inr clean ↦ rw clean ((λ h. no_surrogate-IsUtf16 s clean), (λ u. refl))
]
