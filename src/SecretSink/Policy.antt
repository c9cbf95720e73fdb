-- ===== src/SecretSink/Policy.antt =====
-- resolveSecretSinkConfig of src/utils/secret-sink.ts: where durable secrets go. `opens` says whether
-- a file can be opened safely, `canonical` is canonicalDestinationPath.
use b2_mcp.Base.{Bool, Option, codes, false, get_or, if◌then◌else◌, none, not, some, true, ◌&&◌}
use b2_mcp.Csv.{Units, is_nil, same_units, trim}
use b2_mcp.Elicitation.Client.{lower_case}

pub data SecretSinkMode : Type 0 where
  file inline off : SecretSinkMode

pub data Transport : Type 0 where
  stdio http : Transport

pub data SinkError : Type 0 where
  invalid_mode inline_not_allowed file_not_allowed log_file_collision file_unavailable : SinkError

pub data Resolved {ℓ} (A : Type ℓ) : Type ℓ where
  resolved : A → Resolved A
  config_error : SinkError → Resolved A

pub data SecretSinkConfig : Type 0 where
  sink_off : Bool → SecretSinkConfig  -- is the default file unavailable?
  sink_inline : SecretSinkConfig
  sink_file : Units → SecretSinkConfig

-- The environment variables that are read, and the options.
pub record SinkEnv : Type 0 where
  pub sink : Option Units
  pub sink_file : Option Units
  pub allow_inline_secrets : Option Units
  pub allow_local_files : Option Units
  pub log_file : Option Units
  pub preflight : Bool
  pub default_file_path : Units

abbrev pub default_mode : Transport → SecretSinkMode
default_mode stdio = file
default_mode http = off

abbrev pub is_unset : Option Units → Bool
is_unset none = true
is_unset (some raw) = is_nil (trim raw)

abbrev pub named_mode : Units → Resolved SecretSinkMode
named_mode name =
    if same_units name (codes "file")
    then resolved file
    else if same_units name (codes "inline")
    then resolved inline
    else if same_units name (codes "off")
    then resolved off
    else config_error invalid_mode

unfoldable pub parse_secret_sink_mode : Option Units → Transport → Resolved SecretSinkMode
parse_secret_sink_mode none transport = resolved (default_mode transport)
parse_secret_sink_mode (some raw) transport =
    if is_nil (trim raw)
    then resolved (default_mode transport)
    else named_mode (lower_case (trim raw))

abbrev pub says_true : Option Units → Bool
says_true none = false
says_true (some v) = same_units v (codes "true")

-- An empty path counts as none on HTTP only.
abbrev pub has_path : Option Units → Bool
has_path none = false
has_path (some p) = not (is_nil p)

module _ (opens : Units → Bool) (canonical : Units → Units) where
  abbrev pub collides : Units → Option Units → Bool
  collides path none = false
  collides path (some log) =
      not (is_nil (trim log)) && same_units (canonical path) (canonical (trim log))

  abbrev pub unavailable : Transport → SinkEnv → Resolved SecretSinkConfig
  unavailable stdio env =
      if is_unset env.sink then resolved (sink_off true) else config_error file_unavailable
  unavailable http env = config_error file_unavailable

  abbrev pub open_file : Transport → SinkEnv → Units → Resolved SecretSinkConfig
  open_file transport env path =
      if collides path env.log_file
      then config_error log_file_collision
      else if env.preflight && not (opens path)
      then unavailable transport env
      else resolved (sink_file path)

  abbrev pub file_path : SinkEnv → Units
  file_path env = get_or env.sink_file env.default_file_path

  abbrev pub file_mode : Transport → SinkEnv → Resolved SecretSinkConfig
  file_mode stdio env = open_file stdio env (file_path env)
  file_mode http env =
      if says_true env.allow_local_files && has_path env.sink_file
      then open_file http env (file_path env)
      else config_error file_not_allowed

  abbrev pub inline_mode : Transport → SinkEnv → Resolved SecretSinkConfig
  inline_mode stdio env = resolved sink_inline
  inline_mode http env =
      if says_true env.allow_inline_secrets
      then resolved sink_inline
      else config_error inline_not_allowed

  abbrev pub by_mode : Resolved SecretSinkMode → Transport → SinkEnv → Resolved SecretSinkConfig
  by_mode (config_error e) transport env = config_error e
  by_mode (resolved off) transport env = resolved (sink_off false)
  by_mode (resolved inline) transport env = inline_mode transport env
  by_mode (resolved file) transport env = file_mode transport env

  unfoldable pub resolve_secret_sink_config : Transport → SinkEnv → Resolved SecretSinkConfig
  resolve_secret_sink_config transport env =
      by_mode (parse_secret_sink_mode env.sink transport) transport env
