-- ===== src/SecretSink/Allowed.antt =====
-- What resolveSecretSinkConfig of src/utils/secret-sink.ts asks for before secrets may leave.
use b2_mcp.Base.{Bool, false, true, ◌≡◌}
use b2_mcp.Csv.{Units}
use b2_mcp.SecretSink.Policy.{
  Resolved, SecretSinkConfig, SinkEnv, Transport, collides, config_error, file, file_path, has_path,
  http, inline, parse_secret_sink_mode, resolved, says_true, sink_file, sink_inline, sink_off,
}

abbrev WhereResolved : (SecretSinkConfig → Type 0) → Resolved SecretSinkConfig → Type 0
WhereResolved P (resolved c) = P c
WhereResolved P (config_error e) = Unit

module _ (opens : Units → Bool) (canonical : Units → Units) where
  -- What an environment must say for a configuration.
  abbrev pub IsAllowed : Transport → SinkEnv → SecretSinkConfig → Type 0
  IsAllowed transport env (sink_off b) = Unit
  IsAllowed transport env sink_inline =
      (parse_secret_sink_mode env.sink transport ≡ resolved inline)
      × (transport ≡ http → says_true env.allow_inline_secrets ≡ true)
  IsAllowed transport env (sink_file path) =
      (parse_secret_sink_mode env.sink transport ≡ resolved file)
      × (path ≡ file_path opens canonical env)
      × (collides opens canonical path env.log_file ≡ false)
      × (env.preflight ≡ true → opens path ≡ true)
      × (transport ≡ http
          → (says_true env.allow_local_files ≡ true) × (has_path env.sink_file ≡ true))
