-- ===== src/Lib.antt =====
-- Verification library of the Backblaze B2 MCP server.
--
-- The server offers the operations of Backblaze B2 and of its S3-compatible API as MCP tools. A
-- request reaches it over stdio or over HTTP. The HTTP side reads the body up to a cap, limits the
-- rate of each credential, looks up what the credential may do and builds a server that registers
-- just the tools which the key's capabilities and the token's scopes allow. A call of a destructive
-- tool passes a human's approval, where one can be asked, and the destructive gate first. The handlers call B2 through a circuit breaker and a retry
-- loop with a shared budget, errors are reduced to one shape, and results are written as compact
-- TOON text.
--
-- Which file models what (a module's children are its data, its lemmas and its tests):
--   Base               shared lists, texts and tables: `set` is Map.prototype.set, `remove` its
--                      `delete`, `retain` a loop that deletes, `lookup` its `get`
--   Value, Json        values of unknown type, over a store of objects where they can be cyclic; JSON
--                      trees
--   RateLimiter        src/utils/rate-limiter.ts: `allow_request` is allowRequest, on the state of
--                      its two module variables
--   Retry              src/utils/retry.ts: `with_retry` is withRetry, `round` and `on_rejection` the
--                      body of its loop, `consume_retry_budget_token` the budget
--   CauseChain         src/utils/named-error.ts: `find_in_cause_chain` is findInCauseChain;
--                      Interruption has the tests by name, code and message
--   CircuitBreaker     src/utils/circuit-breaker.ts: the error filter, `is_client_error`
--   Errors             src/utils/errors.ts: `parse_b2_error` is parseB2Error
--   DestructiveGate    src/utils/destructive-gate.ts: Detectors, the Digest that an approval is bound
--                      to, and Check with `check_destructive`, which is checkDestructive
--   Elicitation        src/utils/destructive-elicitation.ts: Decide has the wrapper of destructive calls,
--                      `maybe_require_destructive_elicitation`, with the gate behind it; State is what
--                      an approval is signed in, Client what is read of the request, Prompt and Message
--                      the text that a human sees
--   SecretSink         src/utils/secret-sink.ts: Operation is executeDurableSecretOperation in file mode,
--                      cut at its file operations into Phases (`advance` is one step of one process, `run` any
--                      interleaving), Records the search for earlier records, Policy the modes
--   OAuth              src/oauth-resource-server.ts: Claims and Verified are the checks of a token's claims
--                      (`auth_info_from_verified_claims` is authInfoFromVerifiedClaims), Jwks the key
--                      that has to have signed a JWT, TokenCache what is kept, AccessToken the verifier
--                      (`verify_access_token` is OAuthJwtVerifier.verifyAccessToken), Circuit the
--                      retries of a dependency and its circuit (`run_oauth_dependency_with_retry`)
--   ToolCapabilities   src/utils/tool-capabilities.ts: its Tables, Access by capability and scope, and
--                      the Annotations of MCP
--   Registration       src/server.ts: Surface is what createServer registers of a tool;
--                      src/s3/presigned.ts: Presigned is the handler of s3_get_presigned_url
--   Discovery          src/server.ts: the capability cache with its lookups in flight, and the cache of
--                      authorization managers (`fetch_capabilities` is fetchCapabilities up to its
--                      await, `discovery_settles` the end of a lookup)
--   BodyLimit          src/utils/http-body-limit.ts: `read_capped_body_bytes` is readCappedBodyBytes
--   HttpConfig         src/utils/config.ts: resolveHttpPort, resolveHttpHost and what they read
--   Concurrency        src/utils/concurrency.ts: forEachBounded as events of its workers, its
--                      callbacks and the signal, in any order
--   Csv, Egress        src/b2/insights.ts: `parse_csv` is parseCsv, `compute_egress_leaders` is
--                      computeEgressLeaders
--   Toon               src/utils/toon-encoder.ts: the encoder, from `encode_toon` (encodeToon) down to
--                      Strings (quoting), Columns (tables) and Lines (layout); Reader says what a row
--                      of a table means
--
-- Conventions. State is passed on explicitly: a module's variables are a record, an operation gives
-- the new record. The clock, environment variables and answers of other services are arguments. A
-- thrown error is a constructor of a result type. Asynchronous code is cut at its awaits, and the
-- pieces are events that come in any order. Clock readings and counts are natural numbers; tokens
-- are counted in hundredths (Retry) and thousandths (RateLimiter) of the source's, so that refills
-- are exact. Texts that are only compared are native texts; texts whose characters matter (TOON, CSV)
-- are lists of UTF-16 code units.
--
-- Bounds and fuel. Loops are structural recursion, on the attempts left, on the text, on the list of
-- reads or on the tree that is encoded. Two definitions take fuel: the search along causes, which is
-- given one call more than the store has objects, enough since no object is visited twice; and the
-- printing of a length in decimal, with fuel above the length (Toon/Decimals).
--
-- Not modelled. The breakers themselves are the opossum package, and the HMAC of the digest, the
-- signing of requestState by the MCP SDK, the presigner, the version guard, `Number` of a port and
-- B2's answers are parameters. Timers, logging, sockets, files and schemas are left out: the
-- arguments of a tool are taken to have passed their schema. JSON numbers are naturals where they
-- are only compared, and the text that String gives for them in TOON. The detectors' table is
-- searched by its own names only, not by those of Object.prototype. Keys are sorted by code points,
-- which differs from the order of code units only beyond U+FFFF. Of the OAuth server, the decoding
-- of base64 and JSON, the jose package and what a fetch of the JWKS gives are parameters; the
-- verifier by introspection and the metadata responses are left out. One verifier is asked, at one
-- clock reading for each request, and the calls that share a circuit come one after another. Of the
-- remaining parts, credentials and the rest of the insights have logic of their own; most others
-- are schemas and calls of B2.
pub mod Base
pub mod Value
pub mod CircuitBreaker
pub mod Errors
pub mod Json
pub mod DestructiveGate
pub mod Elicitation
pub mod SecretSink
pub mod ToolCapabilities
pub mod Registration
pub mod OAuth
pub mod Retry
pub mod CauseChain
pub mod RateLimiter
pub mod Toon
pub mod Discovery
pub mod Csv
pub mod BodyLimit
pub mod Concurrency
pub mod HttpConfig
pub mod Egress
