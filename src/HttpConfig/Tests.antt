-- ===== src/HttpConfig/Tests.antt =====
-- Runs of src/utils/config.ts, and the theorems at concrete arguments.
use b2_mcp.Base.{
  Option, [], codes, if◌then◌else◌, leb, none, refl, some, ℕ, ◌&&◌, ◌*◌, ◌++◌, ◌+◌, ◌-◌, ◌∷◌, ◌≡◌,
}
use b2_mcp.Csv.{Units}
use b2_mcp.HttpConfig.{
  parse_http_host, parse_port, parsed, read_host_arg, read_port_arg, resolve_http_host,
  resolve_http_port, usage_error,
}
use b2_mcp.HttpConfig.Flags.{IsOther, joined, resolve_http_port-spell, spell}

-- A `Number` for a run: decimal digits only.
abbrev decimal_from : ℕ → Units → Option ℕ
decimal_from n [] = some n
decimal_from n (c ∷ s) =
    let rest = decimal_from (10 * n + (c - 48)) s in if leb 48 c && leb c 57 then rest else none

abbrev number : Units → Option ℕ
number s = decimal_from 0 s

trimmed_host :
    resolve_http_host (codes "--verbose" ∷ codes "--host= ::1 " ∷ []) 0 none
    ≡ parsed (some (codes "::1"))
unfolding resolve_http_host read_host_arg parse_http_host
trimmed_host = refl

too_large :
    resolve_http_port number (codes "--port" ∷ codes "65536" ∷ []) 0 none
    ≡ usage_error (codes "Invalid port: 65536")
unfolding resolve_http_port read_port_arg parse_port
too_large = refl

verbose-IsOther : IsOther (codes "--verbose")
verbose-IsOther = record { no_flag = refl; no_prefix = refl }

resolve_http_port-spell_example :
    resolve_http_port number
      ((codes "--verbose" ∷ []) ++ spell joined (56 ∷ codes "0") (codes "--port=9" ∷ []))
      0
      (some (codes "7"))
    ≡ parse_port number (56 ∷ codes "0")
resolve_http_port-spell_example =
    resolve_http_port-spell number (codes "--verbose" ∷ []) joined 56 (codes "0")
      (codes "--port=9" ∷ []) 0 (some (codes "7")) (verbose-IsOther, tt)
