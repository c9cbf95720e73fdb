-- ===== src/OAuth/Trusted.antt =====
-- What is known of a token whose claims src/oauth-resource-server.ts accepts.
use Prim.Native.String
use b2_mcp.Csv.{same_units}
use b2_mcp.Elicitation.Client.{lower_case}
use b2_mcp.Base.{
  Option, String, [], codes, each_of_all, includes, inl, inr, refl, some, some_of_any, subst, true,
  ℕ, ◌+◌, ◌<◌, ◌≡◌, ◌≢◌, ◌≤◌, ◌⊎◌,
}
use b2_mcp.Json.{Fields, get, num}
use b2_mcp.OAuth.Claims.{
  AuthInfo, OAuthResourceServerConfig, VerifiedClaimsSource, assert_allowed_subject, assert_binding,
  assert_jwt_time_window, assert_token_type, b2_oauth_scopes, bound_by, demand,
  has_deployment_scope, has_required_scopes, insufficient_scope, introspection, invalid_token,
  is_allowed_type, is_issuer, issuer_claim, jwt, jwt_numeric_date_claim, live, no_later, passed,
  require_match, string_claim, subject_of, values,
}
use b2_mcp.OAuth.Verified.{
  accepted_algorithm, assert_time_window, auth_info, auth_info_from_verified_claims, claimed_scopes,
  number_claim, time_window,
}
use b2_mcp.OAuth.Checks.{
  IsAccepted, IsBound, allowed_sound, begun_sound, candidate_sound, claimed_date, demanded,
  either_true, given_date, issuer_sound, live_sound, passed_first, passed_same, skew_of,
  subject_sound, token_algorithm_sound,
}

module _ (number_of : String → Option ℕ) (token_label : String → String) where
  -- What has begun by `now`, as far as the claims say when.
  abbrev pub HasBegun : VerifiedClaimsSource → Fields → ℕ → Type 0
  HasBegun introspection claims now =
      (t : ℕ) → number_claim number_of token_label (get "nbf" claims) ≡ some t → t ≤ now
  HasBegun (jwt algorithm skew) claims now =
      (t : ℕ) → (get "nbf" claims ≡ num t) ⊎ (get "iat" claims ≡ num t) → t ≤ now + skew

  -- The time at which the claims say that the token expires.
  abbrev pub HasExpiry : VerifiedClaimsSource → Fields → ℕ → Type 0
  HasExpiry introspection claims exp =
      number_claim number_of token_label (get "exp" claims) ≡ some exp
  HasExpiry (jwt algorithm skew) claims exp = get "exp" claims ≡ num exp

  pub record IsTrusted (claims : Fields) (config : OAuthResourceServerConfig) (now : ℕ)
      (source : VerifiedClaimsSource) (info : AuthInfo) : Type 0 where
    pub issuer : issuer_claim source claims ≡ some config.issuer
    pub bound : IsBound source claims config
    pub expiry : HasExpiry source claims info.expires_at
    pub given_expiry : info.expires_at ≢ 0
    pub unexpired : now < info.expires_at + skew_of source
    pub begun : HasBegun source claims now
    pub typed :
        (t : String)
        → string_claim (get "token_type" claims) ≡ some t
        → (a : String) × (includes a config.allowed_token_types ≡ true)
          × (same_units (codes a) (lower_case (codes t)) ≡ true)
    pub algorithm : IsAccepted source claims config
    pub scopes : info.scopes ≡ claimed_scopes number_of token_label claims
    pub deployed :
        (s : String) × (includes s b2_oauth_scopes ≡ true) × (includes s info.scopes ≡ true)
    pub required :
        (s : String) → includes s config.required_scopes ≡ true → includes s info.scopes ≡ true
    pub subject :
        (config.allowed_subjects ≡ [])
        ⊎ ((s : String) × (subject_of source claims ≡ some s)
            × ((includes s config.allowed_subjects ≡ true)
                ⊎ (includes (String.◌++◌ config.issuer (String.◌++◌ "#" s)) config.allowed_subjects
                    ≡ true)))

  time_window_sound :
      (source : VerifiedClaimsSource) (claims : Fields) (now exp : ℕ)
      → time_window number_of token_label source claims now ≡ passed exp
      → HasExpiry source claims exp
        × (exp ≢ 0)
        × (now < exp + skew_of source)
        × HasBegun source claims now
  unfolding assert_time_window assert_jwt_time_window
  time_window_sound introspection claims now exp e =
      let nbf = number_claim number_of token_label (get "nbf" claims) in
      let (x, ex, e) =
        passed_first ℕ (live (number_claim number_of token_label (get "exp" claims)) 0 now) _ exp
          e in
      let (u, eu, e) =
        passed_first ℕ (demand (no_later nbf now) invalid_token "Token is not yet valid") _ exp e in
      let (given, some_time, live_still) =
        live_sound (number_claim number_of token_label (get "exp" claims)) 0 now x ex in
      let same = passed_same x exp e in
      (
        subst (HasExpiry introspection claims) same given,
        subst (λ y. y ≢ 0) same some_time,
        subst (λ y. now < y + 0) same live_still,
        λ t h. begun_sound nbf now t (demanded (no_later nbf now) invalid_token _ u eu) h,
      )
  time_window_sound (jwt algorithm skew) claims now exp e =
      let (exp_claim, e1, e) =
        passed_first ℕ (jwt_numeric_date_claim (get "exp" claims) "Token exp is not accepted") _ exp
          e in
      let (nbf, e2, e) =
        passed_first ℕ (jwt_numeric_date_claim (get "nbf" claims) "Token nbf is not accepted") _ exp
          e in
      let (iat, e3, e) =
        passed_first ℕ (jwt_numeric_date_claim (get "iat" claims) "Token iat is not accepted") _ exp
          e in
      let (x, ex, e) = passed_first ℕ (live exp_claim skew now) _ exp e in
      let (u, eu, e) =
        passed_first ℕ (demand (no_later nbf (now + skew)) invalid_token "Token is not yet valid") _
          exp e in
      let (w, ew, e) =
        passed_first ℕ
          (demand (no_later iat (now + skew)) invalid_token "Token issued-at is not accepted") _ exp
          e in
      let (given, some_time, live_still) = live_sound exp_claim skew now x ex in
      let same = passed_same x exp e in
      (
        subst (HasExpiry (jwt algorithm skew) claims) same
            (given_date (get "exp" claims) "Token exp is not accepted" exp_claim x e1 given),
        subst (λ y. y ≢ 0) same some_time,
        subst (λ y. now < y + skew) same live_still,
        λ t h. elim h [
          | inl given ↦
              begun_sound nbf (now + skew) t
                (demanded (no_later nbf (now + skew)) invalid_token _ u eu)
                (claimed_date (get "nbf" claims) _ nbf t e2 given)
          | inr given ↦
              begun_sound iat (now + skew) t
                (demanded (no_later iat (now + skew)) invalid_token _ w ew)
                (claimed_date (get "iat" claims) _ iat t e3 given)
        ],
      )

  binding_sound :
      (source : VerifiedClaimsSource) (claims : Fields) (config : OAuthResourceServerConfig)
      (u : Unit {0})
      → assert_binding source claims config ≡ passed u
      → IsBound source claims config
  binding_sound introspection claims config u e =
      let (w, ew, e) =
        passed_first (Unit {0})
          (require_match (get "resource" claims) config.resource "Token resource is not accepted") _
          u e in
      (
        demanded (includes config.resource (values (get "resource" claims))) invalid_token _ w ew,
        demanded (includes config.audience (values (get "aud" claims))) invalid_token _ u e,
      )
  binding_sound (jwt algorithm skew) claims config u e =
      either_true (includes config.audience (values (get "aud" claims)))
        (includes config.resource (values (get "resource" claims)))
        (demanded (bound_by claims config) invalid_token _ u e)

  algorithm_sound :
      (source : VerifiedClaimsSource) (claims : Fields) (config : OAuthResourceServerConfig)
      (o : Option String)
      → accepted_algorithm number_of token_label source claims config ≡ passed o
      → IsAccepted source claims config
  algorithm_sound introspection claims config o e =
      token_algorithm_sound claims config.allowed_algorithms o e
  algorithm_sound (jwt algorithm skew) claims config o e =
      allowed_sound algorithm config.allowed_jwt_algorithms o e

  -- Claims are accepted only from the trusted issuer and for this deployment: introspected ones name
  -- its resource and its audience, those of a JWT one of the two. The token expires at the time that
  -- its claims say, and they say one; that time is not past, nor does it begin or was it issued later,
  -- up to the clock skew allowed for a JWT. Its type, if it has one, and its algorithm are allowed; it
  -- has a B2 scope and every required one; and its subject is an allowed one, if the configuration
  -- says which are.
  pub auth_info_from_verified_claims-IsTrusted :
      (token : String) (claims : Fields) (config : OAuthResourceServerConfig) (now : ℕ)
      (source : VerifiedClaimsSource) (info : AuthInfo)
      → auth_info_from_verified_claims number_of token_label token claims config now source
        ≡ passed info
      → IsTrusted claims config now source info
  unfolding auth_info_from_verified_claims assert_token_type
  auth_info_from_verified_claims-IsTrusted token claims config now source info e =
      let scopes = claimed_scopes number_of token_label claims in
      let (u1, e1, e) =
        passed_first AuthInfo
          (demand (is_issuer config.issuer (issuer_claim source claims)) invalid_token
            "Token issuer is not trusted")
          _ info e in
      let (u2, e2, e) = passed_first AuthInfo (assert_binding source claims config) _ info e in
      let (exp, e3, e) =
        passed_first AuthInfo (time_window number_of token_label source claims now) _ info e in
      let (u4, e4, e) =
        passed_first AuthInfo (assert_token_type claims config.allowed_token_types) _ info e in
      let (algorithm, e5, e) =
        passed_first AuthInfo (accepted_algorithm number_of token_label source claims config) _ info
          e in
      let (u6, e6, e) =
        passed_first AuthInfo
          (demand (has_deployment_scope scopes) insufficient_scope "Missing B2 deployment scope") _
          info e in
      let (u7, e7, e) =
        passed_first AuthInfo
          (demand (has_required_scopes config.required_scopes scopes) insufficient_scope
            "Missing required OAuth scope")
          _ info e in
      let (u8, e8, e) =
        passed_first AuthInfo
          (assert_allowed_subject (subject_of source claims) config.issuer config.allowed_subjects)
          _ info e in
      let (expiry, given_expiry, unexpired, begun) = time_window_sound source claims now exp e3 in
      subst (IsTrusted claims config now source)
        (passed_same
          (auth_info number_of token_label token claims source config.issuer exp algorithm) info e)
        (record {
          issuer = issuer_sound config.issuer (issuer_claim source claims) (
              demanded (is_issuer config.issuer (issuer_claim source claims)) invalid_token _ u1
                e1);
          bound = binding_sound source claims config u2 e2;
          expiry = expiry;
          given_expiry = given_expiry;
          unexpired = unexpired;
          begun = begun;
          typed = λ t named.
              some_of_any (λ a. same_units (codes a) (lower_case (codes t)))
                config.allowed_token_types
                (subst (λ o. is_allowed_type config.allowed_token_types o ≡ true) named
                  (demanded
                    (is_allowed_type config.allowed_token_types
                      (string_claim (get "token_type" claims)))
                    invalid_token _ u4 e4));
          algorithm = algorithm_sound source claims config algorithm e5;
          scopes = refl;
          deployed =
              some_of_any (λ s. includes s scopes) b2_oauth_scopes
                (demanded (has_deployment_scope scopes) insufficient_scope _ u6 e6);
          required =
              each_of_all (λ s. includes s scopes) config.required_scopes
                (demanded (has_required_scopes config.required_scopes scopes) insufficient_scope _
                  u7 e7);
          subject =
              elim (subject_sound (subject_of source claims) config.issuer config.allowed_subjects
                u8 e8) [
                  | inl anyone ↦ inl anyone
                  | inr candidate ↦ inr (
                      candidate_sound config.issuer config.allowed_subjects
                        (subject_of source claims) candidate)
                ];
        })
