-- ===== src/HttpConfig.antt =====
-- src/utils/config.ts: the port and the host to listen on, from the command line and the environment.
-- Texts are lists of UTF-16 code units. `number` gives the natural number that `Number` makes of a
-- text, and nothing where it makes none.
mod Flags
mod Tests
use b2_mcp.Base.{
  List, Option, [], any, codes, get_or, if◌then◌else◌, ltb, none, some, ℕ, ◌++◌, ◌+◌, ◌==◌, ◌||◌,
  ◌∷◌,
}
use b2_mcp.Csv.{Units, is_nil, same_units, trim}

-- A result, or a PortUsageError with its message.
pub data Parsed {ℓ} (A : Type ℓ) : Type ℓ where
  parsed : A → Parsed A
  usage_error : Units → Parsed A

pub record PortArgResult : Type 0 where
  pub port : ℕ
  pub next_index : ℕ

pub record HostArgResult : Type 0 where
  pub host : Units
  pub next_index : ℕ

abbrev pub after_parsed {ℓ κ} : {A : Type ℓ} {B : Type κ} → (A → Parsed B) → Parsed A → Parsed B
after_parsed next (usage_error message) = usage_error message
after_parsed next (parsed a) = next a

-- `arg.startsWith(flag)`, with `arg.slice(flag.length)`.
abbrev pub strip : Units → Units → Option Units
strip [] arg = some arg
strip (f ∷ flag) [] = none
strip (f ∷ flag) (c ∷ arg) = let rest = strip flag arg in if f == c then rest else none

abbrev pub port_flag : Units
port_flag = codes "--port"

abbrev pub host_flag : Units
host_flag = codes "--host"

-- The value after a flag: none, or an empty text, is an error.
abbrev pub required : Units → Option Units → Parsed Units
required message none = usage_error message
required message (some []) = usage_error message
required message (some (c ∷ s)) = parsed (c ∷ s)

unfoldable pub parse_http_host : Option Units → Parsed (Option Units)
parse_http_host none = parsed none
parse_http_host (some raw) =
    let host = trim raw in
    if is_nil host
    then usage_error (codes "Invalid host")
    else if any (λ c. (c == 13) || (c == 10)) host
    then usage_error (codes "Invalid host")
    else parsed (some host)

abbrev pub needs_host : Units
needs_host = codes "--host requires a value"

abbrev pub host_at : ℕ → Option Units → Parsed (Option HostArgResult)
host_at next none = usage_error needs_host
host_at next (some host) = parsed (some (record { host = host; next_index = next }))

abbrev pub host_value : ℕ → Option Units → Parsed (Option HostArgResult)
host_value next raw =
    after_parsed (λ s. after_parsed (host_at next) (parse_http_host (some s)))
      (required needs_host raw)

-- `argv[index]` and `argv[index + 1]` are arguments, with the index.
unfoldable pub read_host_arg : Units → Option Units → ℕ → Parsed (Option HostArgResult)
read_host_arg arg following index =
    if same_units arg host_flag
    then host_value (index + 1) following
    else elim (strip (host_flag ++ 61 ∷ []) arg) [
      | some raw ↦ host_value index (some raw)
      | none ↦ parsed none
    ]

-- What follows the first argument, if there is something.
abbrev pub head : List Units → Option Units
head [] = none
head (a ∷ argv) = some a

-- The loop over the arguments from an index, before the environment's host.
unfoldable pub resolve_http_host : List Units → ℕ → Option Units → Parsed (Option Units)
resolve_http_host [] index host = parse_http_host host
resolve_http_host (arg ∷ argv) index host =
    let rest = resolve_http_host argv (index + 1) host in
    elim (read_host_arg arg (head argv) index) [
      | usage_error message ↦ usage_error message
      | parsed none ↦ rest
      | parsed (some r) ↦ parsed (some r.host)
    ]

module _ (number : Units → Option ℕ) where
  unfoldable pub parse_port : Units → Parsed ℕ
  parse_port raw = elim (number raw) [
    | none ↦ usage_error (codes "Invalid port: " ++ raw)
    | some port ↦
        if (port == 0) || ltb 65535 port
        then usage_error (codes "Invalid port: " ++ raw)
        else parsed port
  ]

  abbrev pub port_value : ℕ → Option Units → Parsed (Option PortArgResult)
  port_value next raw =
      after_parsed
        (λ s.
          after_parsed (λ port. parsed (some (record { port = port; next_index = next })))
            (parse_port s))
        (required (codes "--port requires a value") raw)

  unfoldable pub read_port_arg : Units → Option Units → ℕ → Parsed (Option PortArgResult)
  read_port_arg arg following index =
      if same_units arg port_flag
      then port_value (index + 1) following
      else elim (strip (port_flag ++ 61 ∷ []) arg) [
        | some raw ↦ port_value index (some raw)
        | none ↦ parsed none
      ]

  -- The loop over the arguments from an index, before the environment's port.
  unfoldable pub resolve_http_port : List Units → ℕ → Option Units → Parsed ℕ
  resolve_http_port [] index port = parse_port (get_or port (codes "3000"))
  resolve_http_port (arg ∷ argv) index port =
      let rest = resolve_http_port argv (index + 1) port in
      elim (read_port_arg arg (head argv) index) [
        | usage_error message ↦ usage_error message
        | parsed none ↦ rest
        | parsed (some r) ↦ parsed r.port
      ]
