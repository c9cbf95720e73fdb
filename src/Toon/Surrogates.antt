-- ===== src/Toon/Surrogates.antt =====
-- The errors of src/utils/toon-encoder.ts, and its refusal of texts that are no UTF-16.
use b2_mcp.Base.{Bool, String, [], any, false, if◌then◌else◌, leb, true, ℕ, ◌&&◌, ◌+◌, ◌∷◌}
use b2_mcp.Toon.Values.{Text}

-- The two `TypeError`s: the context, the code unit and the index of an unpaired surrogate.
pub data ToonError : Type 0 where
  unpaired_surrogate : String → ℕ → ℕ → ToonError
  not_primitive : ToonError

-- What a function of the encoder gives, unless it throws.
pub data Result {ℓ} (A : Type ℓ) : Type ℓ where
  thrown : ToonError → Result A
  ok : A → Result A

infixl 5 ◌>>◌ ◌>>=◌
abbrev pub ◌>>=◌ {ℓ κ} : {X : Type ℓ} {Y : Type κ} → Result X → (X → Result Y) → Result Y
thrown error >>= next = thrown error
ok x >>= next = next x

abbrev pub ◌>>◌ {κ} : {Y : Type κ} → Result (Unit {0}) → Result Y → Result Y
check >> next = check >>= λ passed. next

abbrev pub between : ℕ → ℕ → ℕ → Bool
between low high c = leb low c && leb c high

-- `SURROGATE_PATTERN`
abbrev pub is_surrogate : ℕ → Bool
is_surrogate c = between 55296 57343 c

abbrev pub is_pair : ℕ → ℕ → Bool
is_pair c d = leb c 56319 && between 56320 57343 d

-- The loop from `index` on.
unfoldable pub surrogate_scan : String → ℕ → Text → Result (Unit {0})
surrogate_scan context index [] = ok tt
surrogate_scan context index (c ∷ []) =
    if is_surrogate c then thrown (unpaired_surrogate context c index) else ok tt
surrogate_scan context index (c ∷ d ∷ rest) = elim (is_surrogate c) [
  | false ↦ surrogate_scan context (index + 1) (d ∷ rest)
  | true ↦ elim (is_pair c d) [
    | true ↦ surrogate_scan context (index + 2) rest
    | false ↦ thrown (unpaired_surrogate context c index)
  ]
]

unfoldable pub assert_no_lone_surrogate : Text → String → Result (Unit {0})
assert_no_lone_surrogate value context =
    if any is_surrogate value then surrogate_scan context 0 value else ok tt
