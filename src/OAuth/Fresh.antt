-- ===== src/OAuth/Fresh.antt =====
-- Answers of OAuthJwtVerifier of src/oauth-resource-server.ts: what stands behind a fresh one, and behind
-- what is kept.
use b2_mcp.Base.{
  All, All-remove, All-set, Bool, Bool-cases, List, Option, String, [], arith, inl, inr, kept, leb,
  length, refl, some, subst, ℕ, ◌*◌, ◌+◌, ◌<◌, ◌==◌, ◌||◌, ◌∷◌, ◌≡◌, ◌≤◌, ◌⊎◌,
}
use b2_mcp.Json.{Fields, Json, get}
use b2_mcp.OAuth.Claims.{
  AuthInfo, Checked, OAuthResourceServerConfig, assert_allowed_algorithm, failed, jwt, passed,
  string_claim,
}
use b2_mcp.OAuth.Checks.{passed_first, passed_same}
use b2_mcp.OAuth.Trusted.{IsTrusted, auth_info_from_verified_claims-IsTrusted}
use b2_mcp.OAuth.Jwks.{
  Fetched, JwksState, Verdict, assert_jwt_header, by_verdict, jwks_unavailable, kid_missing,
  signed_by, unsigned,
}
use b2_mcp.OAuth.TokenCache.{
  Cache, IntrospectionCacheEntry, kept_until, remember_auth_info, without_oldest,
}
use b2_mcp.OAuth.AccessToken.{
  JwtState, ParsedJwt, after_header, algorithm_of, parse_jwt, remembered,
}
use b2_mcp.OAuth.Signed.{IsFetched, IsKept, IsKeyOf, verify_signature-IsAnswer}

module _ (read_json : String → Option Json) (signature_bytes : String → Bool)
    (number_of : String → Option ℕ) (token_label : String → String)
    (jose : String → Fields → String → Bool) (refresh_cooldown_ms : ℕ)
    (config : OAuthResourceServerConfig) where
  module _ (Served : List Fields → Type 0) where
    -- What has been made sure of when a token was verified at a time.
    pub record IsVerified (token : String) (at : ℕ) (info : AuthInfo) : Type 0 where
      pub parsed : ParsedJwt
      pub algorithm : String
      pub jwk : Fields
      pub kid : String
      pub well_formed : parse_jwt read_json signature_bytes token ≡ passed parsed
      pub header_accepted : assert_jwt_header parsed.header config ≡ passed algorithm
      pub named : string_claim (get "kid" parsed.header) ≡ some kid
      pub signed : IsKeyOf Served (jose token) refresh_cooldown_ms kid algorithm jwk
      pub trusted :
          IsTrusted number_of token_label parsed.claims config at
            (jwt algorithm config.jwt_clock_skew_seconds)
            info

    abbrev pub IsEntry : String × IntrospectionCacheEntry → Type 0
    IsEntry (k, e) =
        (token : String) × (at : ℕ) × (token_label token ≡ k)
        × IsVerified token at e.auth_info
        × (e.expires_at_ms ≤ (at + config.token_cache_ttl_seconds) * 1000)
        × (e.expires_at_ms + config.token_cache_skew_seconds * 1000 ≤ e.auth_info.expires_at * 1000)

    -- The token was verified now, or less than a time to live ago and it has not expired since.
    abbrev pub IsGranted : String → ℕ → Checked AuthInfo → Type 0
    IsGranted token now (failed code message) = Unit
    IsGranted token now (passed info) =
        (at : ℕ) × IsVerified token at info
        × ((at ≡ now)
            ⊎ ((now < at + config.token_cache_ttl_seconds)
                × (now + config.token_cache_skew_seconds < info.expires_at)))

    abbrev pub IsSoundState : JwtState → Type 0
    IsSoundState st = All IsEntry st.cache × IsKept Served st.keys.cached

    abbrev pub IsStep : String → ℕ → Checked AuthInfo × JwtState → Type 0
    IsStep token now (r, st) = IsGranted token now r × IsSoundState st

    without_oldest-IsEntry :
        (limit : ℕ) (cache : Cache) → All IsEntry cache → All IsEntry (without_oldest limit cache)
    without_oldest-IsEntry limit [] h = tt
    without_oldest-IsEntry limit (e ∷ es) (p, h) = elim (Bool-cases (leb limit (length (e ∷ es)))) [
      | inl full ↦ rw full h
      | inr room ↦ rw room (p, h)
    ]

    remember-IsEntry :
        (token : String) (info : AuthInfo) (now : ℕ) (cache : Cache)
        → IsVerified token now info
        → All IsEntry cache
        → All IsEntry (remember_auth_info (token_label token) info config (now * 1000) cache)
    unfolding remember_auth_info
    remember-IsEntry token info now cache v h =
        let until = kept_until config info.expires_at (now * 1000) in
        elim (Bool-cases ((config.token_cache_max_entries == 0) || leb until (now * 1000))) [
          | inl refused ↦ rw refused h
          | inr kept ↦ rw kept (
              All-set IsEntry (token_label token) _ _
                (token, now, refl, v, ground (arith, kept), ground (arith, kept))
                (without_oldest-IsEntry config.token_cache_max_entries _
                  (All-remove IsEntry (token_label token) cache h)))
        ]

    by_verdict_passed :
        (token : String) (v : Verdict) (rest : Checked AuthInfo) (info : AuthInfo)
        → by_verdict (jose token) refresh_cooldown_ms v rest ≡ passed info
        → (jwk : Fields) × (v ≡ signed_by jwk) × (rest ≡ passed info)
    by_verdict_passed token (signed_by jwk) rest info e = (jwk, refl, e)
    by_verdict_passed token unsigned rest info e = cc
    by_verdict_passed token kid_missing rest info e = cc
    by_verdict_passed token jwks_unavailable rest info e = cc

    remembered-IsStep :
        (token : String) (now : ℕ) (keys : JwksState) (cache : Cache) (r : Checked AuthInfo)
        → ((info : AuthInfo) → r ≡ passed info → IsVerified token now info)
        → All IsEntry cache
        → IsKept Served keys.cached
        → IsStep token now (
            remembered read_json signature_bytes number_of token_label jose refresh_cooldown_ms
              config token now keys cache r)
    remembered-IsStep token now keys cache (failed code message) v h k = (tt, (h, k))
    remembered-IsStep token now keys cache (passed info) v h k =
        ((now, v info refl, inl refl), (remember-IsEntry token info now cache (v info refl) h, k))

    header_checked :
        (token : String) (parsed : ParsedJwt) (algorithm : String)
        → algorithm_of read_json signature_bytes number_of token_label jose refresh_cooldown_ms
            config token
          ≡ passed (parsed, algorithm)
        → (parse_jwt read_json signature_bytes token ≡ passed parsed)
          × (assert_jwt_header parsed.header config ≡ passed algorithm)
    header_checked token parsed algorithm e =
        let (p, e1, e) =
          passed_first (ParsedJwt × String) (parse_jwt read_json signature_bytes token) _ _ e in
        let (a, e2, e) =
          passed_first (ParsedJwt × String) (assert_jwt_header p.header config) _ _ e in
        let (o, e3, e) =
          passed_first (ParsedJwt × String)
            (assert_allowed_algorithm a config.allowed_jwt_algorithms) _ _ e in
        let same = passed_same (p, a) (parsed, algorithm) e in
        (
          subst (λ q. parse_jwt read_json signature_bytes token ≡ passed q.0) same e1,
          subst (λ q. assert_jwt_header q.0.header config ≡ passed q.1) same e2,
        )

    pub after_header-IsStep :
        (token : String) (now : ℕ) (keys : JwksState) (cache : Cache) (first again : Fetched)
        (o : Checked (ParsedJwt × String))
        → algorithm_of read_json signature_bytes number_of token_label jose refresh_cooldown_ms
            config token
          ≡ o
        → IsFetched Served first
        → IsFetched Served again
        → All IsEntry cache
        → IsKept Served keys.cached
        → IsStep token now (
            after_header read_json signature_bytes number_of token_label jose refresh_cooldown_ms
              config keys cache now token first again o)
    after_header-IsStep token now keys cache first again (failed code message) e f g h k =
        (tt, (h, k))
    after_header-IsStep token now keys cache first again (passed (parsed, algorithm)) e f g h k =
        let (signed, kept) =
          verify_signature-IsAnswer Served (jose token) refresh_cooldown_ms keys (now * 1000)
            parsed.header algorithm first again f g k in
        let (well_formed, accepted) = header_checked token parsed algorithm e in
        remembered-IsStep token now _ cache _
          (λ info passes.
            let (jwk, v, trusted) = by_verdict_passed token _ _ info passes in
            let (kid, named, key) = signed jwk v in
            record {
              parsed = parsed;
              algorithm = algorithm;
              jwk = jwk;
              kid = kid;
              well_formed = well_formed;
              header_accepted = accepted;
              named = named;
              signed = key;
              trusted =
                  auth_info_from_verified_claims-IsTrusted number_of token_label token parsed.claims
                    config now (jwt algorithm config.jwt_clock_skew_seconds) info trusted;
            })
          h kept
