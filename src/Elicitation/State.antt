-- ===== src/Elicitation/State.antt =====
-- The signed state of src/utils/destructive-elicitation.ts, from the request for an approval to the
-- call that resumes it. `RequestStateCodec` is the MCP SDK's; its errors are answers without a value.
use Prim.Native.String
use Prim.Native.Char.{code}
use Prim.Native.String.append
use b2_mcp.Base.{
  Bool, Option, String, [], arith, false, get_or, if◌then◌else◌, none, refl, some, ℕ, ◌&&◌, ◌*◌,
  ◌/◌, ◌==◌, ◌≡◌,
}
use b2_mcp.Json.{Json, end, field, fields_of, get, is_str, num, obj, str}
use b2_mcp.DestructiveGate.Digest.{B2Config, join, present}

pub record RequestStateCodec : Type 0 where
  pub mint : Json → Option String
  pub verify : String → Option Json

-- `v` and `kind` have one value each.
pub record DestructiveElicitationState : Type 0 where
  pub tool_name : String
  pub effect : String
  pub args_digest : String
  pub issued_at : ℕ

abbrev pub max_age_ms : ℕ
max_age_ms = 10 * 60 * 1000

abbrev pub ttl_seconds : ℕ
ttl_seconds = max_age_ms / 1000

abbrev pub request_state_prefix : String
request_state_prefix = "b2-mcp-destructive-elicitation-v1."

abbrev pub is_num : ℕ → Json → Bool
is_num n (num m) = m == n
is_num n _ = false

abbrev pub payload : DestructiveElicitationState → Json
payload s = obj (
    field "v" (num 1) (
      field "kind" (str "destructive-elicitation") (
        field "toolName" (str s.tool_name) (
          field "effect" (str s.effect)
            (field "argsDigest" (str s.args_digest) (field "issuedAt" (num s.issued_at) end))))))

abbrev pub state_of : Json → Json → Json → Json → Option DestructiveElicitationState
state_of (str tool) (str effect) (str digest) (num issued) =
    some (record { tool_name = tool; effect = effect; args_digest = digest; issued_at = issued })
state_of _ _ _ _ = none

unfoldable pub parse_destructive_elicitation_state : Json → Option DestructiveElicitationState
parse_destructive_elicitation_state value =
    let fs = fields_of value in
    if is_num 1 (get "v" fs) && is_str "destructive-elicitation" (get "kind" fs)
    then state_of (get "toolName" fs) (get "effect" fs) (get "argsDigest" fs) (get "issuedAt" fs)
    else none

-- `state.startsWith(prefix)`, with `state.slice(prefix.length)`.
abbrev pub after_prefix : String → String → Option String
after_prefix String.[] s = some s
after_prefix (String.◌∷◌ c p) String.[] = none
after_prefix (String.◌∷◌ c p) (String.◌∷◌ d s) =
    let rest = after_prefix p s in if code c == code d then rest else none

abbrev pub option_map {ℓ κ} : {A : Type ℓ} {B : Type κ} → (A → B) → Option A → Option B
option_map f none = none
option_map f (some a) = some (f a)

abbrev pub then_verify : (String → Option Json) → Option String → Option Json
then_verify verify none = none
then_verify verify (some s) = verify s

-- What createDestructiveElicitationRequestStateCodec puts around the SDK's codec.
unfoldable pub prefixed : RequestStateCodec → RequestStateCodec
prefixed codec = record {
  mint = λ p. option_map (λ s. String.◌++◌ request_state_prefix s) (codec.mint p);
  verify = λ s. then_verify codec.verify (after_prefix request_state_prefix s);
}

-- `sdk_codec key ttl` is createRequestStateCodec of the SDK, `sha256` is of the crypto package.
module _ (sha256 : String → String) (sdk_codec : String → ℕ → RequestStateCodec)
    (nul : String) where
  unfoldable pub destructive_elicitation_key_material : B2Config → String
  destructive_elicitation_key_material c = join nul (
      present c.application_key
        (present c.app_key (present c.master_key (present c.credential_fingerprint []))))

  unfoldable pub destructive_elicitation_state_key : B2Config → String
  destructive_elicitation_state_key c = sha256 (
      String.◌++◌ "b2-mcp-destructive-elicitation-request-state"
        (String.◌++◌ nul (destructive_elicitation_key_material c)))

  unfoldable pub create_codec : B2Config → RequestStateCodec
  create_codec c = prefixed (sdk_codec (destructive_elicitation_state_key c) ttl_seconds)

  unfoldable pub request_state_codec : B2Config → Option RequestStateCodec → RequestStateCodec
  request_state_codec c given = get_or given (create_codec c)

-- A state that is written is read back.
pub parse-payload :
    (s : DestructiveElicitationState) → parse_destructive_elicitation_state (payload s) ≡ some s
unfolding parse_destructive_elicitation_state
parse-payload s = refl

after_prefix-append : (p s : String) → after_prefix p (String.◌++◌ p s) ≡ some s
after_prefix-append String.[] s = rw (append.nil s) refl
after_prefix-append (String.◌∷◌ c p) s =
    rw (append.cons c p s) (ground (arith, after_prefix-append p s))

pub prefixed-verify :
    (codec : RequestStateCodec) (p : Json) (s : String)
    → codec.mint p ≡ some s
    → (prefixed codec).verify (String.◌++◌ request_state_prefix s) ≡ codec.verify s
unfolding prefixed
prefixed-verify codec p s e = rw (after_prefix-append request_state_prefix s)
