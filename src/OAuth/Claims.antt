-- ===== src/OAuth/Claims.antt =====
-- authInfoFromVerifiedClaims of src/oauth-resource-server.ts and the checks that it is made of.
-- `number_of` is `Number` of a text, where that is finite.
use Prim.Native.String
use Prim.Native.Char.{code}
use b2_mcp.Base.{
  Bool, List, Option, String, [], all, any, codes, false, if◌then◌else◌, includes, leb, none,
  or_else, some, str_eq, true, ℕ, ◌+◌, ◌==◌, ◌||◌, ◌∷◌,
}
use b2_mcp.Json.{Fields, Items, Json, arr, cons, get, nil, num, str, undefined}
use b2_mcp.Csv.{is_nil, is_white_space, same_units, trim}
use b2_mcp.Elicitation.Client.{lower_case, or_nullish}

-- OAuthErrorCode, and what OAuthDependencyError is.
pub data OAuthErrorCode : Type 0 where
  invalid_token insufficient_scope dependency_unavailable : OAuthErrorCode

-- A value, or an error that is thrown.
pub data Checked {ℓ} (A : Type ℓ) : Type ℓ where
  passed : A → Checked A
  failed : OAuthErrorCode → String → Checked A

infixl 5 ◌>>=◌
abbrev pub ◌>>=◌ {ℓ κ} : {A : Type ℓ} {B : Type κ} → Checked A → (A → Checked B) → Checked B
passed a >>= rest = rest a
failed code message >>= rest = failed code message

abbrev pub demand : Bool → OAuthErrorCode → String → Checked (Unit {0})
demand true code message = passed tt
demand false code message = failed code message

abbrev pub present : {A : Type 0} → Option A → String → Checked A
present none message = failed invalid_token message
present (some a) message = passed a

pub record OAuthResourceServerConfig : Type 0 where
  pub issuer : String
  pub resource : String
  pub audience : String
  pub allowed_token_types : List String
  pub allowed_algorithms : List String
  pub allowed_jwt_algorithms : List String
  pub allowed_jwt_types : List String
  pub allowed_subjects : List String
  pub required_scopes : List String
  pub jwt_clock_skew_seconds : ℕ
  pub token_cache_max_entries : ℕ
  pub token_cache_ttl_seconds : ℕ
  pub token_cache_skew_seconds : ℕ

pub data VerifiedClaimsSource : Type 0 where
  introspection : VerifiedClaimsSource
  jwt : String → ℕ → VerifiedClaimsSource

pub record AuthInfo : Type 0 where
  pub token_label : String
  pub client_id : String
  pub scopes : List String
  pub expires_at : ℕ
  pub issuer : String
  pub subject : Option String
  pub subject_alias : Option String
  pub principal_alias : Option String
  pub algorithm : Option String
  pub audiences : List String
  pub resources : List String

abbrev pub b2_oauth_scopes : List String
b2_oauth_scopes = "b2:read" ∷ "b2:write" ∷ "b2:admin" ∷ []

abbrev pub text_items : Items → List String
text_items nil = []
text_items (cons (str s) xs) = s ∷ text_items xs
text_items (cons v xs) = text_items xs

abbrev pub values : Json → List String
values (arr xs) = text_items xs
values (str s) = s ∷ []
values _ = []

-- `text.split(/\s+/).filter(Boolean)`, from the right: a first word that may go on, and the others.
abbrev pub flush : String × List String → List String
flush (w, ws) = if str_eq w "" then ws else w ∷ ws

abbrev pub put_char : Bool → String → String × List String → String × List String
put_char true c r = ("", flush r)
put_char false c (w, ws) = (String.◌++◌ c w, ws)

abbrev pub split_words : String → String × List String
split_words String.[] = ("", [])
split_words (String.◌∷◌ c s) =
    put_char (is_white_space (code c)) (String.◌∷◌ c String.[]) (split_words s)

abbrev pub words : String → List String
words s = flush (split_words s)

unfoldable pub scopes_from_claim : Json → List String
scopes_from_claim (arr xs) = text_items xs
scopes_from_claim (str s) = words s
scopes_from_claim _ = []

unfoldable pub string_claim : Json → Option String
string_claim (str s) = if is_nil (trim (codes s)) then none else some s
string_claim _ = none

-- `claims[a] ?? claims[b]`
abbrev pub either_claim : String → String → Fields → Json
either_claim a b claims = or_nullish (get a claims) (get b claims)

unfoldable pub jwt_numeric_date_claim : Json → String → Checked (Option ℕ)
jwt_numeric_date_claim undefined message = passed none
jwt_numeric_date_claim (num n) message = passed (some n)
jwt_numeric_date_claim _ message = failed invalid_token message

abbrev pub require_match : Json → String → String → Checked (Unit {0})
require_match actual expected message =
    demand (includes expected (values actual)) invalid_token message

-- Is a time, if it is given, no later than `limit`?
abbrev pub no_later : Option ℕ → ℕ → Bool
no_later none limit = true
no_later (some t) limit = leb t limit

-- `!exp || exp + skew <= now` is what makes a token expired.
abbrev pub live : Option ℕ → ℕ → ℕ → Checked ℕ
live none skew now = failed invalid_token "Token is expired"
live (some exp) skew now =
    if (exp == 0) || leb (exp + skew) now
    then failed invalid_token "Token is expired"
    else passed exp

unfoldable pub assert_jwt_time_window : Fields → ℕ → ℕ → Checked ℕ
assert_jwt_time_window claims now skew = do
  exp ← jwt_numeric_date_claim (get "exp" claims) "Token exp is not accepted"
  nbf ← jwt_numeric_date_claim (get "nbf" claims) "Token nbf is not accepted"
  iat ← jwt_numeric_date_claim (get "iat" claims) "Token iat is not accepted"
  expires ← live exp skew now
  begun ← demand (no_later nbf (now + skew)) invalid_token "Token is not yet valid"
  issued ← demand (no_later iat (now + skew)) invalid_token "Token issued-at is not accepted"
  passed expires

abbrev pub issuer_claim : VerifiedClaimsSource → Fields → Option String
issuer_claim introspection claims = string_claim (either_claim "iss" "issuer" claims)
issuer_claim (jwt algorithm skew) claims = string_claim (get "iss" claims)

abbrev pub is_issuer : String → Option String → Bool
is_issuer expected none = false
is_issuer expected (some s) = str_eq s expected

abbrev pub bound_by : Fields → OAuthResourceServerConfig → Bool
bound_by claims config =
    includes config.audience (values (get "aud" claims))
    || includes config.resource (values (get "resource" claims))

abbrev pub assert_binding :
    VerifiedClaimsSource → Fields → OAuthResourceServerConfig → Checked (Unit {0})
assert_binding (jwt algorithm skew) claims config =
    demand (bound_by claims config) invalid_token "Token audience/resource is not accepted"
assert_binding introspection claims config = do
  resource ← require_match (get "resource" claims) config.resource "Token resource is not accepted"
  require_match (get "aud" claims) config.audience "Token audience is not accepted"

abbrev pub is_allowed_type : List String → Option String → Bool
is_allowed_type allowed none = true
is_allowed_type allowed (some t) = any (λ a. same_units (codes a) (lower_case (codes t))) allowed

unfoldable pub assert_token_type : Fields → List String → Checked (Unit {0})
assert_token_type claims allowed =
    demand (is_allowed_type allowed (string_claim (get "token_type" claims))) invalid_token
      "Unsupported token type"

-- An empty list allows every algorithm.
unfoldable pub assert_allowed_algorithm : String → List String → Checked (Option String)
assert_allowed_algorithm algorithm [] = passed none
assert_allowed_algorithm algorithm (a ∷ allowed) =
    if includes algorithm (a ∷ allowed)
    then passed (some algorithm)
    else failed invalid_token "Token algorithm is not accepted"

abbrev pub algorithm_claim : Fields → Option String
algorithm_claim claims =
    string_claim (or_nullish (get "alg" claims) (either_claim "jwt_alg" "token_alg" claims))

unfoldable pub assert_token_algorithm : Fields → List String → Checked (Option String)
unfolding assert_allowed_algorithm
assert_token_algorithm claims [] = passed none
assert_token_algorithm claims (a ∷ allowed) = do
  algorithm ← present (algorithm_claim claims) "Token algorithm is not accepted"
  assert_allowed_algorithm algorithm (a ∷ allowed)

abbrev pub has_deployment_scope : List String → Bool
has_deployment_scope scopes = any (λ s. includes s scopes) b2_oauth_scopes

abbrev pub has_required_scopes : List String → List String → Bool
has_required_scopes required scopes = all (λ s. includes s scopes) required

unfoldable pub subject_claim : Fields → Option String
subject_claim claims =
    or_else (string_claim (get "sub" claims))
      (or_else (string_claim (get "subject" claims)) (string_claim (get "principal" claims)))

abbrev pub subject_of : VerifiedClaimsSource → Fields → Option String
subject_of introspection claims = subject_claim claims
subject_of (jwt algorithm skew) claims = string_claim (get "sub" claims)

abbrev pub is_candidate : String → List String → Option String → Bool
is_candidate issuer allowed none = false
is_candidate issuer allowed (some s) =
    includes s allowed || includes (String.◌++◌ issuer (String.◌++◌ "#" s)) allowed

unfoldable pub assert_allowed_subject : Option String → String → List String → Checked (Unit {0})
assert_allowed_subject subject issuer [] = passed tt
assert_allowed_subject subject issuer (a ∷ allowed) =
    demand (is_candidate issuer (a ∷ allowed) subject) invalid_token "Token subject is not accepted"
