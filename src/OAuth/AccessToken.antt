-- ===== src/OAuth/AccessToken.antt =====
-- OAuthJwtVerifier.verifyAccessToken of src/oauth-resource-server.ts: from the text of a token to what
-- it allows. `read_json` is what a base64url text says: none if it is not the canonical encoding of
-- bytes that are JSON. `signature_bytes` is whether the third part of a token is canonical.
use Prim.Native.String
use Prim.Native.Char.{code}
use b2_mcp.Base.{
  Bool, List, Option, String, [], all, codes, if◌then◌else◌, leb, length, none, not, some, str_eq,
  ℕ, ◌%◌, ◌&&◌, ◌*◌, ◌==◌, ◌||◌, ◌∷◌,
}
use b2_mcp.Json.{Fields, Json, obj}
use b2_mcp.OAuth.Claims.{
  AuthInfo, Checked, OAuthResourceServerConfig, assert_allowed_algorithm, demand, failed,
  invalid_token, jwt, passed, ◌>>=◌,
}
use b2_mcp.OAuth.Verified.{auth_info_from_verified_claims}
use b2_mcp.OAuth.Jwks.{Fetched, JwksState, assert_jwt_header, by_verdict, verify_signature}
use b2_mcp.OAuth.TokenCache.{Cache, cached_auth_info, remember_auth_info}

abbrev pub push_char : String → List String → List String
push_char c [] = c ∷ []
push_char c (p ∷ ps) = String.◌++◌ c p ∷ ps

-- `text.split(".")`
abbrev pub split_dots : String → List String
split_dots String.[] = "" ∷ []
split_dots (String.◌∷◌ c s) =
    let rest = split_dots s in
    if code c == 46 then "" ∷ rest else push_char (String.◌∷◌ c String.[]) rest

abbrev pub is_base64_url_char : ℕ → Bool
is_base64_url_char c =
    (leb 65 c && leb c 90)
    || ((leb 97 c && leb c 122) || ((leb 48 c && leb c 57) || ((c == 95) || (c == 45))))

-- The tests of base64UrlToBytes that come before the bytes are read.
abbrev pub is_base64_url : String → Bool
is_base64_url s =
    not (str_eq s "") && (all is_base64_url_char (codes s) && not (length (codes s) % 4 == 1))

pub record ParsedJwt : Type 0 where
  pub header : Fields
  pub claims : Fields

pub record JwtState : Type 0 where
  pub keys : JwksState
  pub cache : Cache

abbrev malformed : {A : Type 0} → Checked A
malformed = failed invalid_token "Malformed JWT access token"

abbrev object_only : Option Json → Checked Fields
object_only (some (obj fields)) = passed fields
object_only _ = malformed

module _ (read_json : String → Option Json) (signature_bytes : String → Bool) where
  unfoldable pub decode_jwt_json_segment : String → Checked Fields
  decode_jwt_json_segment s = if is_base64_url s then object_only (read_json s) else malformed

  abbrev pub parse_parts : List String → Checked ParsedJwt
  parse_parts (a ∷ b ∷ c ∷ []) = do
    header ← decode_jwt_json_segment a
    claims ← decode_jwt_json_segment b
    signature ←
        demand (is_base64_url c && signature_bytes c) invalid_token "Malformed JWT access token"
    passed (record { header = header; claims = claims })
  parse_parts _ = malformed

  unfoldable pub parse_jwt : String → Checked ParsedJwt
  parse_jwt token = parse_parts (split_dots token)

  module _ (number_of : String → Option ℕ) (token_label : String → String)
      (jose : String → Fields → String → Bool) (refresh_cooldown_ms : ℕ)
      (config : OAuthResourceServerConfig) where
    abbrev pub algorithm_of : String → Checked (ParsedJwt × String)
    algorithm_of token = do
      parsed ← parse_jwt token
      algorithm ← assert_jwt_header parsed.header config
      allowed ← assert_allowed_algorithm algorithm config.allowed_jwt_algorithms
      passed (parsed, algorithm)

    abbrev pub jwt_auth_info : String → ℕ → ParsedJwt → String → Checked AuthInfo
    jwt_auth_info token now parsed algorithm =
        auth_info_from_verified_claims number_of token_label token parsed.claims config now
          (jwt algorithm config.jwt_clock_skew_seconds)

    abbrev pub remembered :
        String → ℕ → JwksState → Cache → Checked AuthInfo → Checked AuthInfo × JwtState
    remembered token now keys cache (failed code message) =
        (failed code message, record { keys = keys; cache = cache })
    remembered token now keys cache (passed info) = (
      passed info,
      record {
        keys = keys;
        cache = remember_auth_info (token_label token) info config (now * 1000) cache;
      },
    )

    abbrev pub after_header :
        JwksState
        → Cache
        → ℕ
        → String
        → Fetched
        → Fetched
        → Checked (ParsedJwt × String)
        → Checked AuthInfo × JwtState
    after_header keys cache now token first again (failed code message) =
        (failed code message, record { keys = keys; cache = cache })
    after_header keys cache now token first again (passed (parsed, algorithm)) =
        let signed =
          verify_signature (jose token) refresh_cooldown_ms keys (now * 1000) parsed.header
            algorithm first again in
        remembered token now signed.1 cache (
          by_verdict (jose token) refresh_cooldown_ms signed.0
            (jwt_auth_info token now parsed algorithm))

    abbrev pub after_cache :
        JwksState
        → ℕ
        → String
        → Fetched
        → Fetched
        → Option AuthInfo × Cache
        → Checked AuthInfo × JwtState
    after_cache keys now token first again (some info, cache) =
        (passed info, record { keys = keys; cache = cache })
    after_cache keys now token first again (none, cache) =
        after_header keys cache now token first again (algorithm_of token)

    -- The key of the cache is the label of the token: all else in it is fixed for a verifier.
    unfoldable pub verify_access_token :
        JwtState → ℕ → String → Fetched → Fetched → Checked AuthInfo × JwtState
    verify_access_token st now token first again =
        after_cache st.keys now token first again
          (cached_auth_info (token_label token) (now * 1000) st.cache)
