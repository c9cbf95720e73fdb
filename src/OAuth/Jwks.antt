-- ===== src/OAuth/Jwks.antt =====
-- OAuthJwtVerifier of src/oauth-resource-server.ts: the header of a JWT, the key that has to have
-- signed it, and the JWKS document that the key is from. `jose` says whether the jose package verifies
-- the token with a key under an algorithm. Reading a compact JWT is left out: header and claims are
-- what it holds. A fetch gives the keys and how long they may be kept, or fails.
use Prim.Native.String
use Prim.Native.Char.{code}
use b2_mcp.Base.{
  Bool, List, Option, String, [], false, filter, if◌then◌else◌, includes, leb, length, lookup, ltb,
  none, not, remove, retain, set, some, str_eq, true, ℕ, ◌&&◌, ◌*◌, ◌+◌, ◌-◌, ◌==◌, ◌||◌, ◌∷◌,
}
use b2_mcp.Json.{Fields, Json, arr, bool, get, is_str, nil, null, num, str, undefined}
use b2_mcp.OAuth.Claims.{
  Checked, OAuthResourceServerConfig, demand, dependency_unavailable, failed, invalid_token,
  is_allowed_type, passed, present, string_claim, text_items, ◌>>=◌,
}

abbrev pub crit_refused : Json → Bool
crit_refused undefined = false
crit_refused (arr nil) = false
crit_refused _ = true

abbrev pub is_jwt_type : List String → Option String → Bool
is_jwt_type allowed none = false
is_jwt_type allowed (some t) = is_allowed_type allowed (some t)

-- The message about a type leaves out which type was received.
unfoldable pub assert_jwt_header : Fields → OAuthResourceServerConfig → Checked String
assert_jwt_header header config = do
  algorithm ← present (string_claim (get "alg" header)) "Token algorithm is not accepted"
  critical ←
      demand (not (crit_refused (get "crit" header))) invalid_token
        "Unsupported JWT critical header"
  typed ←
      demand (is_jwt_type config.allowed_jwt_types (string_claim (get "typ" header))) invalid_token
        "Unsupported JWT type"
  passed algorithm

abbrev pub starts_with_ed : Json → Bool
starts_with_ed (str (String.◌∷◌ c (String.◌∷◌ d s))) =
    str_eq (String.◌∷◌ c (String.◌∷◌ d String.[])) "Ed"
starts_with_ed _ = false

-- SUPPORTED_JWT_ALGORITHMS: the test of a key for each algorithm, all of them asymmetric.
abbrev pub supported_jwt_algorithms : List (String × (Fields → Bool))
supported_jwt_algorithms =
    ("RS256", λ jwk. is_str "RSA" (get "kty" jwk))
    ∷ ("ES256", λ jwk. is_str "EC" (get "kty" jwk) && is_str "P-256" (get "crv" jwk))
    ∷ ("EdDSA", λ jwk. is_str "OKP" (get "kty" jwk) && starts_with_ed (get "crv" jwk))
    ∷ []

-- `value && value !== expected`
abbrev pub is_other : String → Json → Bool
is_other expected undefined = false
is_other expected null = false
is_other expected (bool false) = false
is_other expected (num n) = not (n == 0)
is_other expected (str s) = not (str_eq s "") && not (str_eq s expected)
is_other expected _ = true

abbrev pub has_prefix : String → String → Bool
has_prefix String.[] s = true
has_prefix (String.◌∷◌ c t) String.[] = false
has_prefix (String.◌∷◌ c t) (String.◌∷◌ d s) =
    let rest = has_prefix t s in (code c == code d) && rest

-- `s.includes(t)`
abbrev pub has_text : String → String → Bool
has_text t String.[] = has_prefix t String.[]
has_text t (String.◌∷◌ c s) = has_prefix t (String.◌∷◌ c s) || has_text t s

-- Operations that do not say `verify`. Those that are neither a list nor a text make the source throw,
-- which refuses the token, so that the key does not fit.
abbrev pub forbids_verify : Json → Bool
forbids_verify undefined = false
forbids_verify null = false
forbids_verify (arr xs) = not (includes "verify" (text_items xs))
forbids_verify (str s) = not (str_eq s "") && not (has_text "verify" s)
forbids_verify (num n) = not (n == 0)
forbids_verify (bool b) = b
forbids_verify _ = true

abbrev pub key_matches : Option (Fields → Bool) → Fields → Bool
key_matches none jwk = false
key_matches (some test) jwk = test jwk

unfoldable pub jwk_matches_header : Fields → String → String → Bool
jwk_matches_header jwk algorithm kid =
    is_str kid (get "kid" jwk)
    && (not (is_other "sig" (get "use" jwk))
        && (not (forbids_verify (get "key_ops" jwk))
            && (not (is_other algorithm (get "alg" jwk))
                && key_matches (lookup algorithm supported_jwt_algorithms) jwk)))

pub record JwksCacheEntry : Type 0 where
  pub jwks : List Fields
  pub expires_at_ms : ℕ

-- The module's state for one verifier.
pub record JwksState : Type 0 where
  pub cached : Option JwksCacheEntry
  pub unknown_kids : List (String × ℕ)
  pub last_forced_refresh_ms : Option ℕ

-- The keys that a fetch gives, and the seconds for which they are kept.
pub data Fetched : Type 0 where
  unavailable : Fetched
  fetched : List Fields → ℕ → Fetched

pub data Verdict : Type 0 where
  signed_by : Fields → Verdict
  unsigned kid_missing jwks_unavailable : Verdict

abbrev pub unknown_kid_cache_key : String → String → String
unknown_kid_cache_key kid algorithm =
    String.◌++◌ "alg:" (String.◌++◌ algorithm (String.◌++◌ "/kid:" kid))

abbrev pub candidate_keys : List Fields → String → String → List Fields
candidate_keys jwks algorithm kid = filter (λ jwk. jwk_matches_header jwk algorithm kid) jwks

abbrev pub is_live_entry : ℕ → JwksCacheEntry → Bool
is_live_entry now_ms e = ltb now_ms e.expires_at_ms

abbrev pub cooling : ℕ → Option ℕ → Bool
cooling now_ms none = false
cooling now_ms (some until) = ltb now_ms until

abbrev pub refresh_allowed : ℕ → ℕ → Option ℕ → Bool
refresh_allowed cooldown now_ms none = true
refresh_allowed cooldown now_ms (some last) = leb cooldown (now_ms - last)

abbrev pub unknown_kid_cache_max : ℕ
unknown_kid_cache_max = 1000

-- The oldest entries go until there is room for one more; fuel is one for each entry.
abbrev pub trim_oldest : ℕ → List (String × ℕ) → List (String × ℕ)
trim_oldest limit [] = []
trim_oldest limit (e ∷ es) =
    let rest = trim_oldest limit es in if leb limit (length (e ∷ es)) then rest else e ∷ es

abbrev pub remember_unresolved_kid : ℕ → String → String → ℕ → List (String × ℕ) → List (String × ℕ)
remember_unresolved_kid cooldown kid algorithm now_ms kids =
    let key = unknown_kid_cache_key kid algorithm in
    if cooldown == 0
    then kids
    else set key (now_ms + cooldown)
        (trim_oldest unknown_kid_cache_max (remove key (retain (λ until. ltb now_ms until) kids)))

abbrev pub keep_fetched : ℕ → Fetched → JwksState → JwksState
keep_fetched now_ms unavailable st = st
keep_fetched now_ms (fetched keys ttl) st = record st {
  cached = some (record { jwks = keys; expires_at_ms = now_ms + ttl * 1000 });
}

module _ (jose : Fields → String → Bool) (refresh_cooldown_ms : ℕ) where
  -- More than one candidate is ambiguous and refused.
  abbrev pub try_keys : List Fields → String → Verdict
  try_keys [] algorithm = unsigned
  try_keys (jwk ∷ []) algorithm = if jose jwk algorithm then signed_by jwk else unsigned
  try_keys (jwk ∷ other ∷ keys) algorithm = unsigned

  -- What a forced refresh leaves: a kid that has no key is remembered, an ambiguous one is not.
  abbrev pub settled : ℕ → String → String → Bool → JwksState → Verdict → Verdict × JwksState
  settled now_ms kid algorithm ambiguous st (signed_by jwk) = (signed_by jwk, st)
  settled now_ms kid algorithm ambiguous st v = (
    v,
    if ambiguous then st else record st {
      unknown_kids =
          remember_unresolved_kid refresh_cooldown_ms kid algorithm now_ms st.unknown_kids;
    },
  )

  abbrev pub after_refresh : JwksState → ℕ → String → String → Fetched → Verdict × JwksState
  after_refresh st now_ms kid algorithm unavailable = (jwks_unavailable, st)
  after_refresh st now_ms kid algorithm (fetched keys ttl) =
      let candidates = candidate_keys keys algorithm kid in
      settled now_ms kid algorithm (ltb 1 (length candidates))
        (record (keep_fetched now_ms (fetched keys ttl) st) {
          last_forced_refresh_ms = some now_ms;
        })
        (try_keys candidates algorithm)

  -- No key of the cached ones fits; they may be too old to have a new one.
  abbrev pub after_unknown : JwksState → ℕ → String → String → Fetched → Verdict × JwksState
  after_unknown st now_ms kid algorithm again =
      let key = unknown_kid_cache_key kid algorithm in
      let forgotten = record st { unknown_kids = remove key st.unknown_kids } in
      if cooling now_ms (lookup key st.unknown_kids)
      then (unsigned, st)
      else (if refresh_allowed refresh_cooldown_ms now_ms st.last_forced_refresh_ms
          then after_refresh forgotten now_ms kid algorithm again
          else (unsigned, forgotten))

  -- With the keys that fit at hand.
  abbrev pub with_keys :
      JwksState → ℕ → String → String → Bool → Fetched → List Fields → Verdict × JwksState
  with_keys st now_ms kid algorithm from_cache again [] =
      if from_cache then after_unknown st now_ms kid algorithm again else (unsigned, st)
  with_keys st now_ms kid algorithm from_cache again keys = (try_keys keys algorithm, st)

  abbrev pub fetch_first : JwksState → ℕ → String → String → Fetched → Fetched → Verdict × JwksState
  fetch_first st now_ms kid algorithm unavailable again = (jwks_unavailable, st)
  fetch_first st now_ms kid algorithm (fetched keys ttl) again =
      with_keys (keep_fetched now_ms (fetched keys ttl) st) now_ms kid algorithm false again
        (candidate_keys keys algorithm kid)

  abbrev pub from_entry :
      JwksState
      → ℕ
      → String
      → String
      → Fetched
      → Fetched
      → Option JwksCacheEntry
      → Verdict × JwksState
  from_entry st now_ms kid algorithm first again none =
      fetch_first st now_ms kid algorithm first again
  from_entry st now_ms kid algorithm first again (some e) =
      if is_live_entry now_ms e
      then with_keys st now_ms kid algorithm true again (candidate_keys e.jwks algorithm kid)
      else fetch_first (record st { cached = none }) now_ms kid algorithm first again

  abbrev pub by_kid :
      JwksState → ℕ → String → Fetched → Fetched → Option String → Verdict × JwksState
  by_kid st now_ms algorithm first again none = (kid_missing, st)
  by_kid st now_ms algorithm first again (some kid) =
      from_entry st now_ms kid algorithm first again st.cached

  -- `first` is what a fetch gives that the cache asks for, `again` what a forced one gives.
  unfoldable pub verify_signature :
      JwksState → ℕ → Fields → String → Fetched → Fetched → Verdict × JwksState
  verify_signature st now_ms header algorithm first again =
      by_kid st now_ms algorithm first again (string_claim (get "kid" header))

  abbrev pub by_verdict : {A : Type 0} → Verdict → Checked A → Checked A
  by_verdict (signed_by jwk) rest = rest
  by_verdict unsigned rest = failed invalid_token "JWT signature is not accepted"
  by_verdict kid_missing rest =
      failed invalid_token "JWT header is missing the kid required for JWKS verification"
  by_verdict jwks_unavailable rest =
      failed dependency_unavailable "OAuth authorization server unavailable"
