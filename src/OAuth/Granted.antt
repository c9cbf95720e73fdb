-- ===== src/OAuth/Granted.antt =====
-- OAuthJwtVerifier of src/oauth-resource-server.ts, asked one request after another.
use b2_mcp.Base.{
  All, All-lookup, All-remove, All-set, Bool, Bool-cases, List, Option, String, [], arith, false,
  inl, inr, leb, lookup, none, refl, remove, some, subst, ℕ, ◌*◌, ◌∷◌, ◌≡◌,
}
use b2_mcp.Json.{Fields, Json}
use b2_mcp.OAuth.Claims.{AuthInfo, Checked, OAuthResourceServerConfig, live, passed}
use b2_mcp.OAuth.Jwks.{Fetched, JwksState}
use b2_mcp.OAuth.TokenCache.{Cache, IntrospectionCacheEntry, by_entry, cached_auth_info, touch}
use b2_mcp.OAuth.AccessToken.{JwtState, after_cache, algorithm_of, verify_access_token}
use b2_mcp.OAuth.Signed.{IsFetched, IsKept}
use b2_mcp.OAuth.Fresh.{IsEntry, IsGranted, IsSoundState, IsStep, IsVerified, after_header-IsStep}

pub record Request : Type 0 where
  pub at : ℕ
  pub token : String
  pub first : Fetched
  pub again : Fetched

abbrev pub unused_state : JwtState
unused_state = record {
  keys = record { cached = none; unknown_kids = []; last_forced_refresh_ms = none };
  cache = [];
}

module _ (read_json : String → Option Json) (signature_bytes : String → Bool)
    (number_of : String → Option ℕ) (token_label : String → String)
    (jose : String → Fields → String → Bool) (refresh_cooldown_ms : ℕ)
    (config : OAuthResourceServerConfig) where
  abbrev pub answer_one : JwtState → Request → Checked AuthInfo × JwtState
  answer_one st r =
      verify_access_token read_json signature_bytes number_of token_label jose refresh_cooldown_ms
        config st r.at r.token r.first r.again

  abbrev pub answers : JwtState → List Request → List (Request × Checked AuthInfo)
  answers st [] = []
  answers st (r ∷ rs) = let done = answer_one st r in (r, done.0) ∷ answers done.1 rs

  module _ (Served : List Fields → Type 0) where
    module _ (token_label_apart : (s t : String) → token_label s ≡ token_label t → s ≡ t) where
      entry-IsGranted :
          (token : String) (now : ℕ) (e : IntrospectionCacheEntry)
          → (IsEntry read_json signature_bytes number_of token_label jose refresh_cooldown_ms config
                Served)
              (token_label token, e)
          → leb e.expires_at_ms (now * 1000) ≡ false
          → (IsGranted read_json signature_bytes number_of token_label jose refresh_cooldown_ms
                config Served)
              token now
              (passed e.auth_info)
      entry-IsGranted token now e (t, at, label, v, ttl, exp) still = (
        at,
        subst
            (λ u.
              (IsVerified read_json signature_bytes number_of token_label jose refresh_cooldown_ms
                  config Served)
                u at e.auth_info)
            (token_label_apart t token label) v,
        inr (ground (arith, still, ttl), ground (arith, still, exp)),
      )

      after_cache-IsStep :
          (token : String) (now : ℕ) (keys : JwksState) (cache : Cache) (first again : Fetched)
          (o : Option IntrospectionCacheEntry)
          → lookup (token_label token) cache ≡ o
          → IsFetched Served first
          → IsFetched Served again
          → All
              (IsEntry read_json signature_bytes number_of token_label jose refresh_cooldown_ms
                config Served)
              cache
          → IsKept Served keys.cached
          → (IsStep read_json signature_bytes number_of token_label jose refresh_cooldown_ms config
                Served)
              token now
              (after_cache read_json signature_bytes number_of token_label jose refresh_cooldown_ms
                config keys now token first again
                (by_entry (token_label token) (now * 1000) cache o))
      after_cache-IsStep token now keys cache first again none e f g h k =
          after_header-IsStep read_json signature_bytes number_of token_label jose
            refresh_cooldown_ms config Served token now keys cache first again
            (algorithm_of read_json signature_bytes number_of token_label jose refresh_cooldown_ms
              config token)
            refl f g h k
      after_cache-IsStep token now keys cache first again (some entry) e f g h k =
          let key = token_label token in
          let entry_sound =
            All-lookup
              (IsEntry read_json signature_bytes number_of token_label jose refresh_cooldown_ms
                config Served)
              key cache e h in
          elim (Bool-cases (leb entry.expires_at_ms (now * 1000))) [
            | inl expired ↦ rw expired (
                after_header-IsStep read_json signature_bytes number_of token_label jose
                  refresh_cooldown_ms config Served token now keys (remove key cache) first again
                  (algorithm_of read_json signature_bytes number_of token_label jose
                    refresh_cooldown_ms config token)
                  refl f g
                  (All-remove
                    (IsEntry read_json signature_bytes number_of token_label jose
                      refresh_cooldown_ms config Served)
                    key cache h)
                  k)
            | inr live ↦ rw live (
              entry-IsGranted token now entry entry_sound live,
              (
                All-set
                    (IsEntry read_json signature_bytes number_of token_label jose
                      refresh_cooldown_ms config Served)
                    key (touch (now * 1000) entry) (remove key cache) entry_sound
                    (All-remove
                      (IsEntry read_json signature_bytes number_of token_label jose
                        refresh_cooldown_ms config Served)
                      key cache h),
                k,
              ),
            )
          ]

      verify_access_token-IsStep :
          (st : JwtState) (now : ℕ) (token : String) (first again : Fetched)
          → IsFetched Served first
          → IsFetched Served again
          → (IsSoundState read_json signature_bytes number_of token_label jose refresh_cooldown_ms
                config Served)
              st
          → (IsStep read_json signature_bytes number_of token_label jose refresh_cooldown_ms config
                Served)
              token now
              (verify_access_token read_json signature_bytes number_of token_label jose
                refresh_cooldown_ms config st now token first again)
      unfolding verify_access_token cached_auth_info
      verify_access_token-IsStep st now token first again f g (h, k) =
          after_cache-IsStep token now st.keys st.cache first again
            (lookup (token_label token) st.cache) refl f g h k

      abbrev pub IsServing : Request → Type 0
      IsServing r = IsFetched Served r.first × IsFetched Served r.again

      abbrev pub IsGrantedAnswer : Request × Checked AuthInfo → Type 0
      IsGrantedAnswer (r, answer) =
          (IsGranted read_json signature_bytes number_of token_label jose refresh_cooldown_ms config
              Served)
            r.token r.at answer

      answers_from :
          (st : JwtState) (rs : List Request)
          → IsSoundState read_json signature_bytes number_of token_label jose refresh_cooldown_ms
              config Served st
          → All IsServing rs
          → All IsGrantedAnswer (answers st rs)
      answers_from st [] h s = tt
      answers_from st (r ∷ rs) h ((f, g), s) =
          let (granted, next) = verify_access_token-IsStep st r.at r.token r.first r.again f g h in
          (granted, answers_from ((answer_one st r).1) rs next s)

      -- Whatever a JWT verifier is asked, and whatever the issuer serves, a token is accepted only if it
      -- was verified at that time, or less than the cache's time to live ago and it does not expire
      -- within the cache's skew. It was well formed then, with an accepted header; exactly one key of a
      -- JWKS document that was served fits the header, it has the header's kid and the key type of its
      -- algorithm, and jose verifies the token with it; and its claims were trusted. Two tokens have
      -- different labels.
      pub All-answers :
          (rs : List Request) → All IsServing rs → All IsGrantedAnswer (answers unused_state rs)
      All-answers rs s = answers_from unused_state rs (tt, tt) s
