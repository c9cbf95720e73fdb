-- ===== src/SecretSink/Tests.antt =====
-- Operations of the secret sink at concrete requests, and the theorems at these inputs.
use b2_mcp.Base.{
  All, List, String, [], arith, codes, if◌then◌else◌, inl, map, none, refl, some, true, ℕ, ◌++◌,
  ◌==◌, ◌∷◌, ◌≡◌,
}
use b2_mcp.Json.{Json, str}
use b2_mcp.SecretSink.Records.{
  DurableSecretIdempotency, absent, existing_record_from_index_record,
  read_committed_idempotency_record, read_matching_secret_sink_jsonl_record, secret_ledger_record,
}
use b2_mcp.SecretSink.Phases.{
  Choice, Files, all_appended, all_indexed, append_outcome, appends, creates, finished, indexes, ok,
  replayed, returned, sees,
}
use b2_mcp.SecretSink.Operation.{Event, World, acts, advance, begin, run, step}
use b2_mcp.SecretSink.Once.{IsSound}
use b2_mcp.SecretSink.Minted.{IsHonestEvent, files-run-IsSound}
use b2_mcp.SecretSink.Replay.{as_events, run-stores, storing}
use b2_mcp.SecretSink.Policy.{
  SinkEnv, config_error, http, inline_not_allowed, parse_secret_sink_mode,
  resolve_secret_sink_config, sink_file,
}

abbrev create_key : String
create_key = "b2_create_key"

abbrev redact : Json → Json
redact v = str "[redacted]"

-- Two processes are asked for the same, a third for something else with the same key.
abbrev asked : ℕ → DurableSecretIdempotency
asked n = record {
  key = "k";
  claim_fingerprint = "c";
  fingerprint = if n == 2 then "other" else "f";
}

abbrev unused : Files
unused = record { pending = none; committed = none; ledger = []; minted = 0 }

abbrev SinkEvent : Type 0
SinkEvent = Event "/s" create_key redact

abbrev both : Choice → List SinkEvent
both c = acts 0 c ∷ acts 1 c ∷ []

-- Both look before either takes the claim; the one that is slower takes it when the other is done.
abbrev race : List SinkEvent
race =
    both ok
    ++ both ok
    ++ both ok
    ++ both ok
    ++ both (sees 9)
    ++ map (λ c. acts 0 c)
        (ok
          ∷ ok
          ∷ sees 9
          ∷ creates (str "secret") true
          ∷ appends "r1" all_appended true
          ∷ indexes all_indexed
          ∷ ok
          ∷ [])
    ++ map (λ c. acts 1 c) (ok ∷ ok ∷ ok ∷ [])

abbrev after_race : World "/s" create_key redact
after_race = run "/s" create_key redact (begin "/s" create_key redact unused asked) race

raced_winner :
    (after_race.processes 0).phase
    ≡ finished (returned (record { path = "/s"; record_id = "r1" }) (str "secret"))
unfolding run advance read_committed_idempotency_record read_matching_secret_sink_jsonl_record
    secret_ledger_record existing_record_from_index_record step append_outcome
raced_winner = refl

raced_loser :
    (after_race.processes 1).phase
    ≡ finished (
        replayed (record {
          pointer = record { path = "/s"; record_id = "r1" };
          result = str "[redacted]";
        }))
unfolding run advance read_committed_idempotency_record read_matching_secret_sink_jsonl_record
    secret_ledger_record existing_record_from_index_record step append_outcome
raced_loser = refl

raced_once : after_race.files.minted ≡ 1
unfolding run advance read_committed_idempotency_record read_matching_secret_sink_jsonl_record
    secret_ledger_record existing_record_from_index_record step append_outcome
raced_once = refl

unused-IsSound : IsSound create_key "c" unused
unused-IsSound = record { once = omega arith; covered = λ h. inl refl; own = tt }

All-race : All (IsHonestEvent "/s" create_key "c" redact) race
All-race = ground arith

files-run-IsSound_example : IsSound create_key "c" after_race.files
files-run-IsSound_example =
    files-run-IsSound "/s" create_key "c" redact unused asked race unused-IsSound (λ n. refl)
      All-race

nothing_there : read_matching_secret_sink_jsonl_record "/s" create_key (asked 0) [] ≡ absent
unfolding read_matching_secret_sink_jsonl_record
nothing_there = refl

run-stores_example :
    let w =
      run "/s" create_key redact (begin "/s" create_key redact unused asked) (
        as_events "/s" create_key redact 0
          (storing "/s" create_key redact 9 (str "secret") "r1")) in
    ((w.processes 0).phase
      ≡ finished (returned (record { path = "/s"; record_id = "r1" }) (str "secret")))
    × (((step "/s" create_key redact w (acts 1 ok)).processes 1).phase
        ≡ finished (
            replayed (record {
              pointer = record { path = "/s"; record_id = "r1" };
              result = str "[redacted]";
            })))
    × ((step "/s" create_key redact w (acts 1 ok)).files.minted ≡ 1)
run-stores_example =
    run-stores "/s" create_key redact [] 0 9 (str "secret") "r1" asked refl nothing_there

abbrev over_http : SinkEnv
over_http = record {
  sink = some (codes " File ");
  sink_file = some (codes "/s");
  allow_inline_secrets = none;
  allow_local_files = some (codes "true");
  log_file = some (codes "/log");
  preflight = true;
  default_file_path = codes "/home/s";
}

inline_refused :
    resolve_secret_sink_config
      (λ p. true)
      (λ p. p)
      http
      (record over_http { sink = some (codes "inline") })
    ≡ config_error inline_not_allowed
unfolding resolve_secret_sink_config parse_secret_sink_mode
inline_refused = refl
