-- ===== src/OAuth/Tests.antt =====
-- Requests to OAuthJwtVerifier of src/oauth-resource-server.ts.
use b2_mcp.Base.{
  All, Bool, List, Option, String, [], false, if◌then◌else◌, map, none, refl, some, str_eq, true, ℕ,
  ◌+◌, ◌∷◌, ◌≡◌,
}
use b2_mcp.Json.{Fields, Json, end, field, num, obj, str}
use b2_mcp.OAuth.Claims.{
  AuthInfo, Checked, OAuthResourceServerConfig, assert_allowed_algorithm, assert_allowed_subject,
  assert_jwt_time_window, assert_token_type, failed, jwt, jwt_numeric_date_claim, passed,
  scopes_from_claim, string_claim,
}
use b2_mcp.OAuth.Jwks.{
  assert_jwt_header, fetched, jwk_matches_header, unavailable, verify_signature,
}
use b2_mcp.OAuth.Verified.{auth_info, auth_info_from_verified_claims}
use b2_mcp.OAuth.Trusted.{IsTrusted, auth_info_from_verified_claims-IsTrusted}
use b2_mcp.OAuth.TokenCache.{cached_auth_info, remember_auth_info}
use b2_mcp.OAuth.AccessToken.{decode_jwt_json_segment, parse_jwt, verify_access_token}
use b2_mcp.OAuth.Circuit.{
  DependencyCall, OAuthDependencyCircuitState, OAuthDependencyError, OAuthDependencyPolicy,
  dependency_failed, gave_up, open_circuit, retry_loop, run_oauth_dependency_with_retry, timeout,
  unavailable_now, unavailable_with,
}
use b2_mcp.OAuth.Opened.{failed_at}
use b2_mcp.OAuth.KeptAway.{IsDecided, after-IsDecided}
use b2_mcp.OAuth.Retries.{AreAttempts, retry_loop-AreAttempts}
use b2_mcp.OAuth.Granted.{All-answers, IsGrantedAnswer, Request, answers, unused_state}

abbrev policy : OAuthDependencyPolicy
policy = record { max_retries = 1; circuit_failures = 2; circuit_open_ms = 5000 }

abbrev down : OAuthDependencyError
down = unavailable_now timeout none none

abbrev failing_call : ℕ → DependencyCall ℕ
failing_call now_ms = record {
  started_ms = now_ms;
  finished_ms = now_ms + 10;
  attempts = λ n. dependency_failed down;
  delay_aborted = λ n. false;
}

retries_once : retry_loop 1 1 (failing_call 0) ≡ (gave_up down, 2)
retries_once = refl

abbrev earlier : List (DependencyCall ℕ)
earlier = failing_call 100 ∷ failing_call 0 ∷ []

abbrev opened_twice : Option OAuthDependencyCircuitState
opened_twice = some (record { failures = 2; opened_until_ms = 5110 })

kept_away :
    run_oauth_dependency_with_retry policy opened_twice (failing_call 1200)
    ≡ (unavailable_with (unavailable_now open_circuit none (some 4)), opened_twice)
unfolding run_oauth_dependency_with_retry
kept_away = refl

after-IsDecided_example :
    IsDecided policy (failed_at 110 ∷ failed_at 10 ∷ []) opened_twice (failing_call 1200)
unfolding run_oauth_dependency_with_retry
after-IsDecided_example = after-IsDecided policy earlier (failing_call 1200)

retry_loop-AreAttempts_example : AreAttempts (failing_call 0) 1 2 (gave_up down) 2
retry_loop-AreAttempts_example = retry_loop-AreAttempts (failing_call 0) 1

abbrev config : OAuthResourceServerConfig
config = record {
  issuer = "i";
  resource = "r";
  audience = "a";
  allowed_token_types = "bearer" ∷ [];
  allowed_algorithms = [];
  allowed_jwt_algorithms = "RS256" ∷ [];
  allowed_jwt_types = "at+jwt" ∷ [];
  allowed_subjects = [];
  required_scopes = "b2:read" ∷ [];
  jwt_clock_skew_seconds = 5;
  token_cache_max_entries = 2;
  token_cache_ttl_seconds = 60;
  token_cache_skew_seconds = 10;
}

abbrev header : Fields
header = field "alg" (str "RS256") (field "typ" (str "AT+JWT") (field "kid" (str "k") end))

abbrev claims : Fields
claims =
    field "iss" (str "i")
      (field "aud" (str "a") (field "exp" (num 100) (field "scope" (str "b2:read x") end)))

abbrev key : Fields
key = field "kid" (str "k") (field "kty" (str "RSA") end)

abbrev read_json : String → Option Json
read_json s = if str_eq s "hh" then some (obj header) else some (obj claims)

abbrev signed_with : String → Fields → String → Bool
signed_with token jwk algorithm = str_eq token "hh.cc.ss"

abbrev first_request : Request
first_request = record {
  at = 50;
  token = "hh.cc.ss";
  first = fetched (key ∷ []) 9;
  again = unavailable;
}

abbrev later_request : Request
later_request = record { at = 89; token = "hh.cc.ss"; first = unavailable; again = unavailable }

abbrev forged_request : Request
forged_request = record { at = 51; token = "hh.cc.st"; first = unavailable; again = unavailable }

abbrev replies : List Request → List (Request × Checked AuthInfo)
replies = answers read_json (λ s. true) (λ s. none) (λ t. t) signed_with 30000 config unused_state

abbrev outcome : Checked AuthInfo → Option String
outcome (passed info) = none
outcome (failed code message) = some message

replies_given :
    map (λ p. outcome p.1) (replies (first_request ∷ forged_request ∷ later_request ∷ []))
    ≡ (none ∷ some "JWT signature is not accepted" ∷ none ∷ [])
unfolding verify_access_token cached_auth_info parse_jwt decode_jwt_json_segment assert_jwt_header
    assert_allowed_algorithm verify_signature jwk_matches_header string_claim
    auth_info_from_verified_claims assert_jwt_time_window jwt_numeric_date_claim assert_token_type
    assert_allowed_subject scopes_from_claim remember_auth_info
replies_given = refl

All-answers_example :
    All
      (IsGrantedAnswer read_json
        (λ s. true)
        (λ s. none)
        (λ t. t)
        signed_with
        30000
        config
        (λ keys. keys ≡ (key ∷ []))
        (λ s t e. e))
      (replies (first_request ∷ forged_request ∷ later_request ∷ []))
All-answers_example =
    All-answers read_json (λ s. true) (λ s. none) (λ t. t) signed_with 30000 config
      (λ keys. keys ≡ (key ∷ [])) (λ s t e. e) (first_request ∷ forged_request ∷ later_request ∷ [])
      ((refl, tt), ((tt, tt), ((tt, tt), tt)))

accepted_claims :
    auth_info_from_verified_claims (λ s. none) (λ t. t) "t" claims config 104 (jwt "RS256" 5)
    ≡ passed (auth_info (λ s. none) (λ t. t) "t" claims (jwt "RS256" 5) "i" 100 (some "RS256"))
unfolding string_claim auth_info_from_verified_claims assert_allowed_algorithm
    assert_jwt_time_window jwt_numeric_date_claim assert_token_type assert_allowed_subject
    scopes_from_claim
accepted_claims = refl

auth_info_from_verified_claims-IsTrusted_example :
    IsTrusted
      (λ s. none)
      (λ t. t)
      claims
      config
      104
      (jwt "RS256" 5)
      (auth_info (λ s. none) (λ t. t) "t" claims (jwt "RS256" 5) "i" 100 (some "RS256"))
auth_info_from_verified_claims-IsTrusted_example =
    auth_info_from_verified_claims-IsTrusted (λ s. none) (λ t. t) "t" claims config 104
      (jwt "RS256" 5)
      (auth_info (λ s. none) (λ t. t) "t" claims (jwt "RS256" 5) "i" 100 (some "RS256"))
      accepted_claims
