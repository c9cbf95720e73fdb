-- ===== src/OAuth/Verified.antt =====
-- authInfoFromVerifiedClaims of src/oauth-resource-server.ts: the claims of a token, checked one after
-- another.
use b2_mcp.Base.{List, Option, String, [], first_some, get_or, none, or_else, some, ℕ, ◌∷◌}
use b2_mcp.Json.{Fields, Json, get, num, str}
use b2_mcp.OAuth.Claims.{
  AuthInfo, Checked, OAuthResourceServerConfig, VerifiedClaimsSource, assert_allowed_algorithm,
  assert_allowed_subject, assert_binding, assert_jwt_time_window, assert_token_algorithm,
  assert_token_type, demand, either_claim, has_deployment_scope, has_required_scopes,
  insufficient_scope, introspection, invalid_token, is_issuer, issuer_claim, jwt, live, no_later,
  passed, scopes_from_claim, string_claim, subject_of, values, ◌>>=◌,
}

-- `token_label` is the keyed hash that stands for a token.
module _ (number_of : String → Option ℕ) (token_label : String → String) where
  unfoldable pub number_claim : Json → Option ℕ
  number_claim (num n) = some n
  number_claim (str s) = number_of s
  number_claim _ = none

  unfoldable pub assert_time_window : Fields → ℕ → Checked ℕ
  assert_time_window claims now = do
    expires ← live (number_claim (get "exp" claims)) 0 now
    begun ←
        demand (no_later (number_claim (get "nbf" claims)) now) invalid_token
          "Token is not yet valid"
    passed expires

  abbrev pub time_window : VerifiedClaimsSource → Fields → ℕ → Checked ℕ
  time_window introspection claims now = assert_time_window claims now
  time_window (jwt algorithm skew) claims now = assert_jwt_time_window claims now skew

  abbrev pub accepted_algorithm :
      VerifiedClaimsSource → Fields → OAuthResourceServerConfig → Checked (Option String)
  accepted_algorithm introspection claims config =
      assert_token_algorithm claims config.allowed_algorithms
  accepted_algorithm (jwt algorithm skew) claims config =
      assert_allowed_algorithm algorithm config.allowed_jwt_algorithms

  -- An alias counts for introspection only, and only where what stands before it is missing.
  abbrev pub alias : VerifiedClaimsSource → Option String → Option String → Option String
  alias introspection none o = o
  alias source earlier o = none

  abbrev pub claimed_scopes : Fields → List String
  claimed_scopes claims = scopes_from_claim (either_claim "scope" "scp" claims)

  abbrev pub auth_info :
      String → Fields → VerifiedClaimsSource → String → ℕ → Option String → AuthInfo
  auth_info token claims source issuer expires algorithm =
      let subject = string_claim (get "sub" claims) in
      let subject_alias = alias source subject (string_claim (get "subject" claims)) in
      let principal_alias =
        alias source (or_else subject subject_alias) (string_claim (get "principal" claims)) in
      record {
        token_label = token_label token;
        client_id =
            get_or
              (first_some (
                string_claim (get "client_id" claims)
                ∷ string_claim (get "azp" claims)
                ∷ subject
                ∷ subject_alias
                ∷ principal_alias
                ∷ []))
              "unknown-client";
        scopes = claimed_scopes claims;
        expires_at = expires;
        issuer = issuer;
        subject = subject;
        subject_alias = subject_alias;
        principal_alias = principal_alias;
        algorithm = algorithm;
        audiences = values (get "aud" claims);
        resources = values (get "resource" claims);
      }

  unfoldable pub auth_info_from_verified_claims :
      String → Fields → OAuthResourceServerConfig → ℕ → VerifiedClaimsSource → Checked AuthInfo
  auth_info_from_verified_claims token claims config now source = do
    trusted ←
        demand (is_issuer config.issuer (issuer_claim source claims)) invalid_token
          "Token issuer is not trusted"
    bound ← assert_binding source claims config
    expires ← time_window source claims now
    typed ← assert_token_type claims config.allowed_token_types
    algorithm ← accepted_algorithm source claims config
    deployed ←
        demand (has_deployment_scope (claimed_scopes claims)) insufficient_scope
          "Missing B2 deployment scope"
    scoped ←
        demand (has_required_scopes config.required_scopes (claimed_scopes claims))
          insufficient_scope "Missing required OAuth scope"
    subject ←
        assert_allowed_subject (subject_of source claims) config.issuer config.allowed_subjects
    passed (auth_info token claims source config.issuer expires algorithm)
