-- ===== src/HttpConfig/Flags.antt =====
-- The port and the host of src/utils/config.ts, wherever they come from.
use b2_mcp.Base.{
  All, Bool-cases, List, Option, Option-cases, [], arith, codes, false, get_or, inl, inr, ltb, none,
  refl, some, ℕ, ◌++◌, ◌+◌, ◌==◌, ◌||◌, ◌∙◌, ◌∷◌, ◌≡◌, ◌≤◌,
}
use b2_mcp.Csv.{Units, same_units}
use b2_mcp.HttpConfig.{
  Parsed, PortArgResult, after_parsed, head, parse_port, parsed, port_flag, port_value,
  read_port_arg, required, resolve_http_port, strip, usage_error,
}

-- What holds of a result, where there is one.
abbrev pub Gives {ℓ} : {A : Type ℓ} → (A → Type 0) → Parsed A → Type 0
Gives P (parsed a) = P a
Gives P (usage_error message) = Unit

abbrev pub IsPort : ℕ → Type 0
IsPort p = (1 ≤ p) × (p ≤ 65535)

in_range : (p : ℕ) → ((p == 0) || ltb 65535 p) ≡ false → IsPort p
in_range p h = (ground (arith, h), ground (arith, h))

module _ (number : Units → Option ℕ) where
  parse_port-IsPort : (raw : Units) → Gives IsPort (parse_port number raw)
  unfolding parse_port
  parse_port-IsPort raw = elim (Option-cases (number raw)) [
    | inl missing ↦ rw (missing, parse_port) tt
    | inr (p, found) ↦ elim (Bool-cases ((p == 0) || ltb 65535 p)) [
      | inl bad ↦ rw (found, bad, parse_port) tt
      | inr good ↦ rw (found, good, parse_port) (in_range p good)
    ]
  ]

  Gives-after :
      {A B : Type 0} (P : A → Type 0) (Q : B → Type 0) (f : A → Parsed B) (m : Parsed A)
      → Gives P m
      → ((a : A) → P a → Gives Q (f a))
      → Gives Q (after_parsed f m)
  Gives-after P Q f (parsed a) h k = k a h
  Gives-after P Q f (usage_error message) h k = tt

  abbrev IsPortArg : Option PortArgResult → Type 0
  IsPortArg none = Unit
  IsPortArg (some r) = IsPort r.port

  required-Gives : (message : Units) (raw : Option Units) → Gives (λ s. Unit) (required message raw)
  required-Gives message none = tt
  required-Gives message (some []) = tt
  required-Gives message (some (c ∷ s)) = tt

  port_value-IsPortArg :
      (next : ℕ) (raw : Option Units) → Gives IsPortArg (port_value number next raw)
  port_value-IsPortArg next raw =
      Gives-after (λ s. Unit) IsPortArg _ (required (codes "--port requires a value") raw)
        (required-Gives _ raw)
        (λ s u.
          Gives-after IsPort IsPortArg _ (parse_port number s) (parse_port-IsPort s) (λ p h. h))

  read_port_arg-IsPortArg :
      (arg : Units) (following : Option Units) (index : ℕ)
      → Gives IsPortArg (read_port_arg number arg following index)
  unfolding read_port_arg
  read_port_arg-IsPortArg arg following index = elim (Bool-cases (same_units arg port_flag)) [
    | inl flag ↦ rw flag (port_value-IsPortArg (index + 1) following)
    | inr other ↦ elim (Option-cases (strip (port_flag ++ 61 ∷ []) arg)) [
      | inl none_joined ↦ rw (other, none_joined, read_port_arg) tt
      | inr (raw, joined) ↦
          rw (other, joined, read_port_arg) (port_value-IsPortArg index (some raw))
    ]
  ]

  next_port :
      (r : Parsed (Option PortArgResult)) (rest : Parsed ℕ)
      → Gives IsPortArg r
      → Gives IsPort rest
      → Gives IsPort (elim r [
        | usage_error message ↦ usage_error message
        | parsed none ↦ rest
        | parsed (some a) ↦ parsed a.port
      ])
  next_port (usage_error message) rest h k = tt
  next_port (parsed none) rest h k = k
  next_port (parsed (some a)) rest h k = h

  -- A port that is resolved is one that can be listened on, wherever it comes from.
  pub resolve_http_port-IsPort :
      (argv : List Units) (index : ℕ) (port : Option Units)
      → Gives IsPort (resolve_http_port number argv index port)
  unfolding resolve_http_port
  resolve_http_port-IsPort [] index port = parse_port-IsPort (get_or port (codes "3000"))
  resolve_http_port-IsPort (arg ∷ argv) index port =
      next_port (read_port_arg number arg (head argv) index) _
        (read_port_arg-IsPortArg arg (head argv) index)
        (resolve_http_port-IsPort argv (index + 1) port)

-- The two spellings of a flag with its value.
pub data Spelling : Type 0 where
  apart joined : Spelling

pub spell : Spelling → Units → List Units → List Units
spell apart v rest = port_flag ∷ v ∷ rest
spell joined v rest = (port_flag ++ 61 ∷ v) ∷ rest

-- Neither spelling of the port flag.
pub record IsOther (arg : Units) : Type 0 where
  pub no_flag : same_units arg port_flag ≡ false
  pub no_prefix : strip (port_flag ++ 61 ∷ []) arg ≡ none

same_port :
    (next : ℕ) (f : Option PortArgResult → Parsed ℕ) (m : Parsed ℕ)
    → ((r : PortArgResult) → f (some r) ≡ parsed r.port)
    → after_parsed f (after_parsed (λ p. parsed (some (record { port = p; next_index = next }))) m)
      ≡ m
same_port next f (parsed p) h = h _
same_port next f (usage_error message) h = refl

module _ (number : Units → Option ℕ) where
  other-read_port_arg :
      (arg : Units) (following : Option Units) (index : ℕ)
      → IsOther arg
      → read_port_arg number arg following index ≡ parsed none
  unfolding read_port_arg
  other-read_port_arg arg following index o = rw (o.no_flag, o.no_prefix, read_port_arg) refl

  other-resolve_http_port :
      (arg : Units) (argv : List Units) (index : ℕ) (port : Option Units)
      → IsOther arg
      → resolve_http_port number (arg ∷ argv) index port
        ≡ resolve_http_port number argv (index + 1) port
  unfolding resolve_http_port
  other-resolve_http_port arg argv index port o =
      rw (other-read_port_arg arg (head argv) index o, resolve_http_port) refl

  flag-resolve_http_port :
      (w : Spelling) (c : ℕ) (s : Units) (rest : List Units) (index : ℕ) (port : Option Units)
      → resolve_http_port number (spell w (c ∷ s) rest) index port ≡ parse_port number (c ∷ s)
  unfolding resolve_http_port read_port_arg spell
  flag-resolve_http_port apart c s rest index port =
      same_port (index + 1) _ (parse_port number (c ∷ s)) (λ r. refl)
  flag-resolve_http_port joined c s rest index port =
      same_port index _ (parse_port number (c ∷ s)) (λ r. refl)

  -- The first port flag decides, in either spelling: neither later arguments nor the environment are
  -- asked.
  pub resolve_http_port-spell :
      (before : List Units) (w : Spelling) (c : ℕ) (s : Units) (rest : List Units) (index : ℕ)
      (port : Option Units)
      → All IsOther before
      → resolve_http_port number (before ++ spell w (c ∷ s) rest) index port
        ≡ parse_port number (c ∷ s)
  resolve_http_port-spell [] w c s rest index port h = flag-resolve_http_port w c s rest index port
  resolve_http_port-spell (a ∷ before) w c s rest index port (o, h) =
      other-resolve_http_port a (before ++ spell w (c ∷ s) rest) index port o
      ∙ resolve_http_port-spell before w c s rest (index + 1) port h
